-- ===== src/Roles/Labels.antt =====
-- The labels of a prompt, a letter and a number, and what they stand for (the dicts `labels`
-- and `existing_labels` of src/collegium/roles/skeptic.py, resolver.py and researcher.py).
use collegium.Prelude.{
  ℕ, zero, suc, ◌+◌, ◌/◌, ◌%◌, Bool, ◌&&◌, Option, none, some, List, [], ◌∷◌, ◌++◌, leb, ◌==◌,
  if◌then◌else◌, map,
}
use collegium.Text.{Text, text_eq}
use collegium.Memory.{NodeKind}

-- The digits of a number, in at most `fuel` steps.
abbrev pub digits_from : ℕ → ℕ → Text → Text
digits_from zero n digits = digits
digits_from (suc fuel) n digits =
    let more = digits_from fuel (n / 10) ((48 + n % 10) ∷ digits) in
    if n / 10 == 0 then (48 + n % 10) ∷ digits else more

-- str(n)
unfoldable pub decimal : ℕ → Text
decimal n = digits_from (suc n) n []

abbrev pub Labels : Type 0
Labels = List (Text × ℕ)

-- `{f"{letter}{i}": id for i, id in enumerate(ids, n)}`
abbrev pub labels_from : Text → ℕ → List ℕ → Labels
labels_from letter n [] = []
labels_from letter n (id ∷ ids) = (letter ++ decimal n, id) ∷ labels_from letter (suc n) ids

unfoldable pub labelled : Text → List ℕ → Labels
labelled letter ids = labels_from letter 1 ids

-- labels.get(label)
abbrev pub id_of : Text → Labels → Option ℕ
id_of label [] = none
id_of label ((known, id) ∷ labels) =
    let later = id_of label labels in if text_eq known label then some id else later

-- The labels as targets of evidence, of one kind.
abbrev pub as_targets : NodeKind → Labels → List (Text × ℕ × NodeKind)
as_targets kind labels = map (λ (l : Text × ℕ). (l.0, l.1, kind)) labels

abbrev pub is_digit : ℕ → Bool
is_digit c = leb 48 c && leb c 57
