-- ===== src/Providers/Objects/Scope.antt =====
-- memory/store.go: what a tenant's calls can reach.
use nexus_local.Prelude.{
  [], ◌∷◌, ◌++◌, true, false, ◌≡◌, ◌≢◌, refl, sym, arith, eqb, none, some, All, Bool-cases, inl,
  inr,
}
use nexus_local.Result.{ok, Result-cases}
use nexus_local.Action.{Context}
use nexus_local.Text.{Text, text, text_Eq, has_prefix}
use nexus_local.Clock.{Time}
use nexus_local.Map
use nexus_local.Domain.Ids.{TenantId}
use nexus_local.Providers.{ObjectPut}
use nexus_local.Providers.Objects.{
  Objects, tenant_prefix, validate_tenant_key, object_of, put_object, get_object, delete_object,
}

-- An identifier without a slash.
abbrev pub NoSlash : Text → Type 0
NoSlash = All (λ c. eqb c b'/' ≡ false)

same_segment :
    (key a b : Text)
    → NoSlash a
    → NoSlash b
    → has_prefix key (a ++ b'/' ∷ []) ≡ true
    → has_prefix key (b ++ b'/' ∷ []) ≡ true
    → a ≡ b
unfolding has_prefix
same_segment [] [] b ha hb p q = ground (arith, p)
same_segment [] (x ∷ a) b ha hb p q = ground (arith, p)
same_segment (c ∷ key) [] [] ha hb p q = refl
same_segment (c ∷ key) [] (y ∷ b) ha hb p q = ground (arith, p, q, hb)
same_segment (c ∷ key) (x ∷ a) [] ha hb p q = ground (arith, p, q, ha)
same_segment (c ∷ key) (x ∷ a) (y ∷ b) ha hb p q =
    ground (arith, p, q, same_segment key a b ha.1 hb.1)

same_rest :
    (front key a b : Text)
    → NoSlash a
    → NoSlash b
    → has_prefix key (front ++ (a ++ b'/' ∷ [])) ≡ true
    → has_prefix key (front ++ (b ++ b'/' ∷ [])) ≡ true
    → a ≡ b
unfolding has_prefix
same_rest [] key a b ha hb p q = same_segment key a b ha hb p q
same_rest (x ∷ front) [] a b ha hb p q = ground (arith, p)
same_rest (x ∷ front) (c ∷ key) a b ha hb p q = ground (arith, p, q, same_rest front key a b ha hb)

-- A key that is valid for two tenants whose identifiers have no slash is that of one tenant.
valid_keys_apart :
    (a b key : Text)
    → NoSlash a
    → NoSlash b
    → validate_tenant_key a key ≡ ok tt
    → validate_tenant_key b key ≡ ok tt
    → a ≡ b
unfolding validate_tenant_key tenant_prefix
valid_keys_apart a b key ha hb p q =
    same_rest (text "tenants/") key a b ha hb (ground (arith, p)) (ground (arith, q))

other_key :
    (a b i k : Text)
    → NoSlash a
    → NoSlash b
    → a ≢ b
    → validate_tenant_key a i ≡ ok tt
    → validate_tenant_key b k ≡ ok tt
    → text_Eq.same i k ≡ false
other_key a b i k ha hb apart p q = elim (Bool-cases (text_Eq.same i k)) [
  | inr h ↦ h
  | inl h ↦
      absurd (apart (valid_keys_apart a b k ha hb (rw (sym ((text_Eq.same_iff i k).0 h)) p) q))
]

-- What a tenant's GetObject returns is not changed by a call of PutObject or of DeleteObject for
-- another tenant, under whatever keys and contexts, where neither identifier contains a slash.
pub get_object-scoped :
    (wall : Time) (ctx ctx' : Context) (input : ObjectPut) (key k : Text) (b : TenantId)
    (s : Objects)
    → NoSlash input.tenant_id
    → NoSlash b
    → input.tenant_id ≢ b
    → ((get_object ctx' b k (put_object wall ctx input s).1).0 ≡ (get_object ctx' b k s).0)
      × ((get_object ctx' b k (delete_object ctx input.tenant_id key s).1).0
          ≡ (get_object ctx' b k s).0)
unfolding get_object put_object delete_object
get_object-scoped wall (some e) ctx' input key k b s ha hb apart = (refl, refl)
get_object-scoped wall none (some e) input key k b s ha hb apart = (refl, refl)
get_object-scoped wall none none input key k b s ha hb apart =
    elim (Result-cases (validate_tenant_key b k)) [
      | inr (e, q) ↦ (rw q refl, rw q refl)
      | inl (u, q) ↦ (
        elim (Result-cases (validate_tenant_key input.tenant_id input.key)) [
          | inr (e, p) ↦ rw (p, q) refl
          | inl (v, p) ↦ elim (Result-cases input.body) [
            | inr (e, c) ↦ rw (p, c, q) refl
            | inl (content, c) ↦
                rw
                  (
                    p,
                    c,
                    q,
                    Map.get-put s input.key k
                        (object_of wall (record input { body = ok content }) content),
                    other_key input.tenant_id b input.key k ha hb apart p q,
                  )
                  refl
          ]
        ],
        elim (Result-cases (validate_tenant_key input.tenant_id key)) [
          | inr (e, p) ↦ rw (p, q) refl
          | inl (v, p) ↦
              rw (p, q, Map.get-remove s key k, other_key input.tenant_id b key k ha hb apart p q)
                refl
        ],
      )
    ]
