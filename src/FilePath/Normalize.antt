-- ===== src/FilePath/Normalize.antt =====
-- `normalize_path` of src/util.c on absolute paths, as a whole.
use mini_dropbox.Prelude.{
  ℕ, ◌+◌, ◌≡◌, ◌<◌, refl, ap, ap₂, ◌∙◌, sym, true, false, some, List, [], ◌∷◌, ◌++◌, if◌then◌else◌,
  lt→ltb, arith, length, append_assoc, append-nil,
}
use mathlib.Core.List.{reverse, reverse-append, reverse-reverse}
use mini_dropbox.FilePath.{slash, dot_if_empty, terminate, is_absolute_path, normalize_path}
use mini_dropbox.FilePath.Spec.{
  Place, walk, show, path_of, AllNames, components, reverse-cons, components-show, AllNames-reverse,
}
use mini_dropbox.FilePath.Absolute.{base, buffer, push-some, reverse-filled, normalize_loop-Walked}

pub path_of-append : (us vs : List (List ℕ)) → path_of (us ++ vs) ≡ path_of us ++ path_of vs
unfolding path_of
path_of-append [] vs = refl
path_of-append (u ∷ us) vs = simp (path_of-append us vs, append_assoc)

path_of-snoc :
    (w : List ℕ) (ws : List (List ℕ))
    → path_of (reverse (w ∷ ws)) ≡ path_of (reverse ws) ++ slash ∷ w
unfolding path_of
path_of-snoc w ws =
    ap path_of (reverse-cons w ws)
    ∙ path_of-append (reverse ws) (w ∷ [])
    ∙ ap (λ x. path_of (reverse ws) ++ slash ∷ x) (append-nil w)

reverse-full :
    (w : List ℕ) (ws : List (List ℕ))
    → reverse (base ws) ≡ path_of (reverse ws) ++ slash ∷ []
    → reverse (reverse w ++ base ws) ≡ path_of (reverse (w ∷ ws))
reverse-full w ws ih =
    reverse-append (reverse w) (base ws)
    ∙ ap₂ ◌++◌ ih (reverse-reverse w)
    ∙ append_assoc (path_of (reverse ws)) (slash ∷ []) w
    ∙ sym (path_of-snoc w ws)

reverse-base : (ws : List (List ℕ)) → reverse (base ws) ≡ path_of (reverse ws) ++ slash ∷ []
unfolding path_of
reverse-base [] = refl
reverse-base (w ∷ ws) =
    reverse-cons slash (reverse w ++ base ws)
    ∙ ap (λ x. x ++ slash ∷ []) (reverse-full w ws (reverse-base ws))

-- The buffer read in order is the path of the place.
reverse-buffer : (s : Place) → reverse (buffer s) ≡ show s
unfolding show
reverse-buffer ([], true) = refl
reverse-buffer ([], false) = refl
reverse-buffer (w ∷ ws, true) = reverse-base (w ∷ ws)
reverse-buffer (w ∷ ws, false) =
    reverse-full w ws (reverse-base ws) ∙ sym (append-nil (path_of (reverse (w ∷ ws))))

buffer-filled :
    (s : Place) (room : ℕ) → AllNames s.0 → dot_if_empty room (buffer s) ≡ some (buffer s)
unfolding dot_if_empty
buffer-filled ([], true) room a = refl
buffer-filled ([], false) room a = refl
buffer-filled (w ∷ ws, true) room a = refl
buffer-filled (w ∷ ws, false) room a = let (c, u, e) = reverse-filled w a.0.filled in rw e

terminate-buffer :
    (s : Place) (room : ℕ) → length (buffer s) < room → terminate room (buffer s) ≡ some (show s)
unfolding terminate
terminate-buffer s room h = rw (lt→ltb _ _ h) (ap some (reverse-buffer s))

-- The place that an absolute path leads to.
abbrev pub destination : List ℕ → Place
destination p = walk (components p) ([], false)

-- An absolute path is normalised to the path of the place that the walk over its components
-- reaches: "." stays, ".." goes up and stops at the root, a name goes down. No write leaves the
-- buffer of `strlen(path) + 2` bytes, and the loop ends.
pub normalize_path-absolute :
    (p : List ℕ)
    → normalize_path true (some (slash ∷ p)) ≡ some (some (show (destination (slash ∷ p))))
unfolding normalize_path
normalize_path-absolute p =
    let room = length (slash ∷ p) + 2 in
    let start : Place = ([], false) in
    let w =
      normalize_loop-Walked (length (slash ∷ p) + 1) room (slash ∷ p) start tt (omega arith)
        (omega arith) in
    let end = destination (slash ∷ p) in
    rw (
      push-some room slash [] (omega arith),
      w.result_eq,
      buffer-filled end room w.names,
      terminate-buffer end room w.fits,
    )

pub destination-AllNames : (p : List ℕ) → AllNames (destination (slash ∷ p)).0
destination-AllNames p =
    let w =
      normalize_loop-Walked (length (slash ∷ p) + 1) (length (slash ∷ p) + 2) (slash ∷ p)
        ([], false) tt (omega arith) (omega arith) in
    w.names

is_absolute_path-path_of :
    (us : List (List ℕ)) (v rest : List ℕ)
    → is_absolute_path ((path_of us ++ slash ∷ v) ++ rest) ≡ true
unfolding is_absolute_path path_of
is_absolute_path-path_of [] v rest = refl
is_absolute_path-path_of (u ∷ us) v rest = refl

pub is_absolute_path-show : (s : Place) → is_absolute_path (show s) ≡ true
unfolding show
is_absolute_path-show ([], up) = unfold is_absolute_path in refl
is_absolute_path-show (w ∷ ws, up) =
    rw (path_of-snoc w ws) (is_absolute_path-path_of (reverse ws) w (if up then slash ∷ [] else []))

-- The result for an absolute path is an absolute path whose components are proper names, neither
-- "." nor "..": those of the place that the walk reaches, outermost first.
pub normalize_path-AllNames :
    (p : List ℕ)
    → (r : List ℕ) × (normalize_path true (some (slash ∷ p)) ≡ some (some r))
      × (is_absolute_path r ≡ true)
      × (components r ≡ reverse (destination (slash ∷ p)).0)
      × AllNames (components r)
normalize_path-AllNames p =
    let end = destination (slash ∷ p) in
    let a = destination-AllNames p in
    (
      show end,
      normalize_path-absolute p,
      is_absolute_path-show end,
      components-show end a,
      rw (components-show end a) (AllNames-reverse end.0 a),
    )
