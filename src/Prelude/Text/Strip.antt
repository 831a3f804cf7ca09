-- ===== src/Prelude/Text/Strip.antt =====
-- Stripping a text that has no white space.
use balance_tracker.Prelude.Lists.{All}
use balance_tracker.Prelude.Text.{Text, is_space, lstrip, strip}
use mathlib.Core.Path.{◌≡◌, refl, ap, ◌∙◌}
use mathlib.Core.Bool.{false}
use mathlib.Core.List.{[], ◌∷◌, reverse, reverse_aux, reverse-reverse}

abbrev pub NoSpace : Text → Type 0
NoSpace s = All (λ c. is_space c ≡ false) s

lstrip_none : (s : Text) → NoSpace s → lstrip s ≡ s
unfolding lstrip
lstrip_none [] h = refl
lstrip_none (c ∷ s) h = rw h.0 refl

reverse_aux-NoSpace : (s t : Text) → NoSpace s → NoSpace t → NoSpace (reverse_aux s t)
reverse_aux-NoSpace [] t h k = k
reverse_aux-NoSpace (c ∷ s) t h k = reverse_aux-NoSpace s (c ∷ t) h.1 (h.0, k)

pub strip_none : (s : Text) → NoSpace s → strip s ≡ s
unfolding strip
strip_none s h =
    ap (λ t. reverse (lstrip (reverse t))) (lstrip_none s h)
    ∙ ap reverse (lstrip_none (reverse s) (reverse_aux-NoSpace s [] h tt))
    ∙ reverse-reverse s
