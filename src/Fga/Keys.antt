-- ===== src/Fga/Keys.antt =====
-- The keys of the map `visiting`: one for each object and computed relation, and no two alike.
use Prim.Native.String.{len, slice}
use text.Mathlib.TextLemmas.{append_assoc, append_cancel_right}
use text.Mathlib.TextPositions.{len-append, slice-append_right}
use gontext.Base.{◌+◌}
use gontext.Base.{String, eq_iff, concat}
use gontext.Base.{◌≡◌, sym, ap, ◌∙◌, ◌≢◌}
use gontext.Base.{arith}
use gontext.Fga.{visit_key}

pub visit_key-injective : (o p r : String) → visit_key o r ≡ visit_key p r → o ≡ p
unfolding visit_key
visit_key-injective o p r h =
    append_cancel_right o p "|" (append_cancel_right (concat o "|") (concat p "|") r h)

len_of_last : (s t : String) → concat s "d" ≡ concat t "e" → len s ≡ len t
len_of_last s t h = omega (arith, ap len h, len-append s "d", len-append t "e")

last_of_last : (s t : String) → concat s "d" ≡ concat t "e" → ◌≡◌ {A = String} "d" "e"
last_of_last s t h =
    sym (slice-append_right s "d")
    ∙ ap (λ u. slice u (len s) (len s + 1)) h
    ∙ ap (λ n. slice (concat t "e") n (n + 1)) (len_of_last s t h)
    ∙ slice-append_right t "e"

last_char-ne : (s t : String) → concat s "d" ≢ concat t "e"
last_char-ne s t h = ground (arith, eq_iff "d" "e", last_of_last s t h)

pub read_key-ne-manage_key : (o p : String) → visit_key o "can_read" ≢ visit_key p "can_manage"
unfolding visit_key
read_key-ne-manage_key o p h = last_char-ne (concat o "|can_rea") (concat p "|can_manag") (
    append_assoc o "|can_rea" "d"
    ∙ sym (append_assoc o "|" "can_read")
    ∙ h
    ∙ append_assoc p "|" "can_manage"
    ∙ sym (append_assoc p "|can_manag" "e"))
