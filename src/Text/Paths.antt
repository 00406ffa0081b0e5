-- ===== src/Text/Paths.antt =====
-- path.Base and filepath.Ext of Go, on paths whose separator is '/'.
use nexus_local.Prelude.{ℕ, [], ◌∷◌, ◌++◌, eqb, if◌then◌else◌}
use nexus_local.Text.{Text, text, is_empty}

-- What follows the last '/', or the whole; `part` is what has been read behind the last one.
unfoldable pub last_element : Text → Text → Text
last_element part [] = part
last_element part (c ∷ s) =
    let fresh = last_element [] s in
    let longer = last_element (part ++ c ∷ []) s in if eqb c b'/' then fresh else longer

-- `c` in front of a text without slashes at its end
unfoldable pub cons_unless_slash : ℕ → Text → Text
cons_unless_slash c [] = if eqb c b'/' then [] else c ∷ []
cons_unless_slash c (d ∷ s) = c ∷ d ∷ s

unfoldable pub strip_slashes : Text → Text
unfolding cons_unless_slash
strip_slashes [] = []
strip_slashes (c ∷ s) = cons_unless_slash c (strip_slashes s)

unfoldable pub base : Text → Text
unfolding last_element strip_slashes
base path =
    if is_empty path
    then text "."
    else (let stripped = strip_slashes path in
        if is_empty stripped then text "/" else last_element [] stripped)

-- The suffix that begins at the last '.', or "".
unfoldable pub from_last_dot : Text → Text
from_last_dot [] = []
from_last_dot (c ∷ s) =
    let later = from_last_dot s in
    if is_empty later then (if eqb c b'.' then c ∷ s else []) else later

unfoldable pub ext : Text → Text
unfolding last_element from_last_dot
ext path = from_last_dot (last_element [] path)
