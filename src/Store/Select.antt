-- ===== src/Store/Select.antt =====
-- How the methods of the store list a map: they range over it, keep what they are asked for, sort it,
-- and cut it to a limit.
use nexus_local.Prelude.{
  List, Bool, true, false, ◌≡◌, ◌⊎◌, arith, ltb, eqb, keep, length, take, if◌then◌else◌, ℤ,
  is_nonpositive, magnitude,
}
use nexus_local.Text.{Text, text_ltb}
use nexus_local.Text.Order.{text_ltb_irrefl, text_ltb_trans, text_ltb_total, text_ltb_cotrans}
use nexus_local.Clock.{Time}
use nexus_local.Map
use nexus_local.Map.{Map}
use nexus_local.Sort.{sort, IsOrder}

unfoldable pub select : {K V : Type 0} → (V → Bool) → (V → V → Bool) → Map K V → List V
select p less m = sort less (keep p (Map.values m))

-- `if limit > 0 && len(items) > limit { items = items[:limit] }`
unfoldable pub cut : {A : Type 0} → ℤ → List A → List A
cut limit items =
    if is_nonpositive limit
    then items
    else if ltb (magnitude limit) (length items)
    then take (magnitude limit) items
    else items

module _ {A : Type 0} (time : A → Time) (id : A → Text) where
  -- Oldest first, and by identifier where the times are equal.
  unfoldable pub oldest_first : A → A → Bool
  oldest_first a b = if eqb (time a) (time b) then text_ltb (id a) (id b) else ltb (time a) (time b)

  -- Newest first, and by identifier where the times are equal.
  unfoldable pub newest_first : A → A → Bool
  newest_first a b = if eqb (time a) (time b) then text_ltb (id a) (id b) else ltb (time b) (time a)

  pub oldest_first-IsOrder : IsOrder oldest_first id
  unfolding oldest_first
  oldest_first-IsOrder = record {
    irrefl = λ a. ground (arith, text_ltb_irrefl (id a));
    trans = λ a b c h k. ground (arith, text_ltb_trans (id a) (id b) (id c), h, k);
    total = λ a b. ground (arith, text_ltb_total (id a) (id b));
  }

  pub newest_first-IsOrder : IsOrder newest_first id
  unfolding newest_first
  newest_first-IsOrder = record {
    irrefl = λ a. ground (arith, text_ltb_irrefl (id a));
    trans = λ a b c h k. ground (arith, text_ltb_trans (id a) (id b) (id c), h, k);
    total = λ a b. ground (arith, text_ltb_total (id a) (id b));
  }

  pub oldest_first_asym : (a b : A) → oldest_first b a ≡ true → oldest_first a b ≡ false
  unfolding oldest_first
  oldest_first_asym a b h =
      ground (arith, text_ltb_irrefl (id a), text_ltb_trans (id a) (id b) (id a), h)

  pub oldest_first_cotrans :
      (a b c : A) → oldest_first a c ≡ true → (oldest_first a b ≡ true) ⊎ (oldest_first b c ≡ true)
  unfolding oldest_first
  oldest_first_cotrans a b c h = ground (arith, text_ltb_cotrans (id a) (id b) (id c), h)
