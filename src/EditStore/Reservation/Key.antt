-- ===== src/EditStore/Reservation/Key.antt =====
-- The keys of packages/bridge-daemon/src/plan/in-memory-edit-store.ts join two texts by a NUL.
use Prim.Native.Char.{code}
use text.Mathlib.TextLemmas.{nil-append, cons-append, cons-eq-cons}
use junon.Shared.{String, ◌≡◌, refl, sym, ap, ◌∙◌, false, arith}
use junon.Shared.Texts.{includes}
use junon.EditStore.Removal.{internal_key}

-- Two keys are the same only if the sessions and the IDs are, where no session has a NUL in its name.
pub internal_key-injective :
    (a b i j : String)
    → includes 0 a ≡ false
    → includes 0 b ≡ false
    → internal_key a i ≡ internal_key b j
    → (a ≡ b) × (i ≡ j)
unfolding internal_key includes
internal_key-injective String.[] String.[] i j ha hb e =
    (refl, (cons-eq-cons.0 (sym (nil-append _) ∙ e ∙ nil-append _)).1)
internal_key-injective String.[] (String.◌∷◌ d b) i j ha hb e =
    let h = cons-eq-cons.0 (sym (nil-append _) ∙ e ∙ cons-append d b _) in
    absurd (ground (arith, ap code h.0))
internal_key-injective (String.◌∷◌ c a) String.[] i j ha hb e =
    let h = cons-eq-cons.0 (sym (cons-append c a _) ∙ e ∙ nil-append _) in
    absurd (ground (arith, ap code h.0))
internal_key-injective (String.◌∷◌ c a) (String.◌∷◌ d b) i j ha hb e =
    let h = cons-eq-cons.0 (sym (cons-append c a _) ∙ e ∙ cons-append d b _) in
    let (same, ids) = internal_key-injective a b i j (ground arith) (ground arith) h.1 in
    (ground (arith, h.0, same), ids)
