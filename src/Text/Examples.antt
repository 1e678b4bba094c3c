-- ===== src/Text/Examples.antt =====
-- Tests of the methods on texts.
use mytenancyplus.Prelude.{none, some, ◌≡◌, refl}
use mytenancyplus.Text.{strip, clip}

stripped : strip "  a b " ≡ "a b"
unfolding strip
stripped = refl

clipped : (clip 3 (some "agent") ≡ some "age") × (clip 3 (some "") ≡ none)
unfolding clip
clipped = (refl, refl)
