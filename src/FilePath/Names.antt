-- ===== src/FilePath/Names.antt =====
-- A path of names only, neither "." nor "..", is the path of the place that it leads to: what the
-- specification of `normalize_path` of src/util.c does with it.
use mini_dropbox.Prelude.{
  ℕ, ◌≡◌, refl, sym, ap, ◌∙◌, false, List, [], ◌∷◌, ◌++◌, bytes_eq, append_assoc, append-nil,
}
use mathlib.Core.List.{reverse, reverse-reverse}
use mini_dropbox.FilePath.Spec.{
  components, walk, next-name, reverse-cons, show, path_of, AllNames, AllNames-AllWords,
  components-path_of,
}
use mini_dropbox.FilePath.Normalize.{destination}

-- The path of a place that names lead to.
walk-names : (ws ds : List (List ℕ)) → AllNames ws → walk ws (ds, false) ≡ (reverse ws ++ ds, false)
unfolding walk
walk-names [] ds a = refl
walk-names (w ∷ ws) ds a = rw (next-name w (ds, false) a.0) (
    walk-names ws (w ∷ ds) a.1
    ∙ ap (λ v. (v, false))
        (sym (append_assoc (reverse ws) (w ∷ []) ds) ∙ ap (λ v. v ++ ds) (sym (reverse-cons w ws))))

show-filled :
    (ds us : List (List ℕ)) (u : List ℕ) → reverse ds ≡ u ∷ us → show (ds, false) ≡ path_of (u ∷ us)
unfolding show
show-filled [] us u h = cc
show-filled (d ∷ ds) us u h = append-nil (path_of (reverse (d ∷ ds))) ∙ ap path_of h

pub show-destination :
    (u : List ℕ) (us : List (List ℕ))
    → AllNames (u ∷ us)
    → show (destination (path_of (u ∷ us))) ≡ path_of (u ∷ us)
unfolding bytes_eq components
show-destination u us a =
    ap (λ x. show (destination x)) (sym (append-nil (path_of (u ∷ us))))
    ∙ ap (λ x. show (walk x ([], false)))
        (components-path_of (u ∷ us) [] (AllNames-AllWords (u ∷ us) a) tt ∙ append-nil (u ∷ us))
    ∙ ap show (walk-names (u ∷ us) [] a ∙ ap (λ x. (x, false)) (append-nil (reverse (u ∷ us))))
    ∙ show-filled (reverse (u ∷ us)) us u (reverse-reverse (u ∷ us))
