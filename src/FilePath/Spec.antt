-- ===== src/FilePath/Spec.antt =====
-- What `normalize_path` of src/util.c is meant to compute: the components of a path, the walk over
-- them with a stack, and the path that a stack stands for.
use mini_dropbox.Prelude.{
  ℕ, ◌≡◌, refl, ap, ◌∙◌, Bool, true, false, List, [], ◌∷◌, ◌++◌, if◌then◌else◌, ◌==◌, bytes_eq,
  Bool-cases, inl, inr, append_assoc, append-nil,
}
use mathlib.Core.List.{reverse, reverse-append}
use mini_dropbox.FilePath.{slash, dot, component}

abbrev cons_head : ℕ → List (List ℕ) → List (List ℕ)
cons_head c [] = (c ∷ []) ∷ []
cons_head c (w ∷ ws) = (c ∷ w) ∷ ws

-- The parts of a string between its slashes, empty ones too.
unfoldable pub split : List ℕ → List (List ℕ)
split [] = [] ∷ []
split (c ∷ p) = if c == slash then [] ∷ split p else cons_head c (split p)

unfoldable pub drop_empty : List (List ℕ) → List (List ℕ)
drop_empty [] = []
drop_empty ([] ∷ ws) = drop_empty ws
drop_empty ((c ∷ w) ∷ ws) = (c ∷ w) ∷ drop_empty ws

-- The components of a path.
unfoldable pub components : List ℕ → List (List ℕ)
unfolding split drop_empty
components p = drop_empty (split p)

abbrev pub tail : List (List ℕ) → List (List ℕ)
tail [] = []
tail (w ∷ ws) = ws

-- The directories entered, innermost first, and whether the last step was up.
abbrev pub Place : Type 0
Place = List (List ℕ) × Bool

unfoldable pub next : List ℕ → Place → Place
next w s =
    if bytes_eq w (dot ∷ [])
    then s
    else if bytes_eq w (dot ∷ dot ∷ [])
    then (tail s.0, true)
    else (w ∷ s.0, false)

unfoldable pub walk : List (List ℕ) → Place → Place
walk [] s = s
walk (w ∷ ws) s = walk ws (next w s)

-- /w₁/w₂/…
unfoldable pub path_of : List (List ℕ) → List ℕ
path_of [] = []
path_of (w ∷ ws) = slash ∷ (w ++ path_of ws)

-- The root is "/"; a step up leaves a slash behind the directory that it ends in.
unfoldable pub show : Place → List ℕ
unfolding path_of
show ([], up) = slash ∷ []
show (w ∷ ws, up) = path_of (reverse (w ∷ ws)) ++ (if up then slash ∷ [] else [])

abbrev pub NoSlash : List ℕ → Type 0
NoSlash [] = Unit
NoSlash (c ∷ w) = (c == slash ≡ false) × NoSlash w

-- A component that names something: not empty, no slash in it, neither "." nor "..".
pub record IsName (w : List ℕ) : Type 0 where
  pub filled : bytes_eq w [] ≡ false
  pub no_slash : NoSlash w
  pub not_dot : bytes_eq w (dot ∷ []) ≡ false
  pub not_dots : bytes_eq w (dot ∷ dot ∷ []) ≡ false

-- A component, which may be "." or "..".
pub record IsWord (w : List ℕ) : Type 0 where
  pub filled : bytes_eq w [] ≡ false
  pub no_slash : NoSlash w

abbrev pub AllWords : List (List ℕ) → Type 0
AllWords [] = Unit
AllWords (w ∷ ws) = IsWord w × AllWords ws

abbrev pub AllNames : List (List ℕ) → Type 0
AllNames [] = Unit
AllNames (w ∷ ws) = IsName w × AllNames ws

abbrev pub AtBreak : List ℕ → Type 0
AtBreak [] = Unit
AtBreak (c ∷ p) = c == slash ≡ true

pub component-NoSlash : (p : List ℕ) → NoSlash (component p).0
unfolding component
component-NoSlash [] = tt
component-NoSlash (c ∷ p) = elim (Bool-cases (c == slash)) [
  | inl e ↦ rw e tt
  | inr e ↦ rw e (e, component-NoSlash p)
]

pub component-AtBreak : (p : List ℕ) → AtBreak (component p).1
unfolding component
component-AtBreak [] = tt
component-AtBreak (c ∷ p) = elim (Bool-cases (c == slash)) [
  | inl e ↦ rw e e
  | inr e ↦ rw e (component-AtBreak p)
]

-- The parts behind the first one.
abbrev later : List ℕ → List (List ℕ)
later [] = []
later (c ∷ p) = split p

split-component : (p : List ℕ) → split p ≡ (component p).0 ∷ later (component p).1
unfolding split component
split-component [] = refl
split-component (c ∷ p) = elim (Bool-cases (c == slash)) [
  | inl e ↦ rw e
  | inr e ↦ rw (e, split-component p)
]

drop_empty-later : (p : List ℕ) → AtBreak p → drop_empty (later p) ≡ components p
unfolding components
drop_empty-later [] b = refl
drop_empty-later (c ∷ p) b = rw b

pub components-slash :
    (c : ℕ) (p : List ℕ) → (c == slash) ≡ true → components (c ∷ p) ≡ components p
unfolding components
components-slash c p e = rw e

-- The first component of a path that does not start with a slash, and the others.
pub components-cons :
    (c : ℕ) (p : List ℕ)
    → (c == slash) ≡ false
    → components (c ∷ p) ≡ (component (c ∷ p)).0 ∷ components (component (c ∷ p)).1
unfolding components
components-cons c p e = ap drop_empty (split-component (c ∷ p)) ∙ first
  where
    first :
        drop_empty ((component (c ∷ p)).0 ∷ later (component (c ∷ p)).1)
        ≡ (component (c ∷ p)).0 ∷ components (component (c ∷ p)).1
    first =
        unfold component in
        rw e
          (ap (◌∷◌ (c ∷ (component p).0)) (drop_empty-later (component p).1 (component-AtBreak p)))

-- The places that `walk` reaches hold names only.
pub next-AllNames :
    (w : List ℕ) (s : Place)
    → bytes_eq w [] ≡ false
    → NoSlash w
    → AllNames s.0
    → AllNames (next w s).0
unfolding next
next-AllNames w (st, up) filled h a = elim (Bool-cases (bytes_eq w (dot ∷ []))) [
  | inl e ↦ rw e a
  | inr e ↦ elim (Bool-cases (bytes_eq w (dot ∷ dot ∷ []))) [
    | inl f ↦ rw (e, f) (tail_names st a)
    | inr f ↦ rw (e, f) (record { filled = filled; no_slash = h; not_dot = e; not_dots = f }, a)
  ]
]
  where
    tail_names : (st : List (List ℕ)) → AllNames st → AllNames (tail st)
    tail_names [] a = tt
    tail_names (w ∷ ws) a = a.1

-- The same loop, over the components at once.
pub walk-next :
    (c : ℕ) (p : List ℕ) (s : Place)
    → (c == slash) ≡ false
    → walk (components (c ∷ p)) s
      ≡ walk (components (component (c ∷ p)).1) (next (component (c ∷ p)).0 s)
unfolding walk
walk-next c p s e = rw (components-cons c p e)

split-NoSlash : (w p : List ℕ) → NoSlash w → AtBreak p → split (w ++ p) ≡ w ∷ later p
unfolding split
split-NoSlash [] [] h b = refl
split-NoSlash [] (c ∷ p) h b = rw b
split-NoSlash (c ∷ w) p h b = rw (h.0, split-NoSlash w p h.1 b)

drop_empty-filled :
    (w : List ℕ) (ws : List (List ℕ))
    → bytes_eq w [] ≡ false
    → drop_empty (w ∷ ws) ≡ w ∷ drop_empty ws
unfolding drop_empty bytes_eq
drop_empty-filled [] ws h = cc
drop_empty-filled (c ∷ w) ws h = refl

components-append : (w p : List ℕ) → IsWord w → AtBreak p → components (w ++ p) ≡ w ∷ components p
unfolding components
components-append w p n b =
    ap drop_empty (split-NoSlash w p n.no_slash b)
    ∙ drop_empty-filled w (later p) n.filled
    ∙ ap (◌∷◌ w) (drop_empty-later p b)

path_of-AtBreak : (ws : List (List ℕ)) (rest : List ℕ) → AtBreak rest → AtBreak (path_of ws ++ rest)
unfolding path_of
path_of-AtBreak [] rest b = b
path_of-AtBreak (w ∷ ws) rest b = refl

-- Names put together into a path come apart again.
pub components-path_of :
    (ws : List (List ℕ)) (rest : List ℕ)
    → AllWords ws
    → AtBreak rest
    → components (path_of ws ++ rest) ≡ ws ++ components rest
unfolding path_of
components-path_of [] rest a b = refl
components-path_of (w ∷ ws) rest a b =
    components-slash slash ((w ++ path_of ws) ++ rest) refl
    ∙ ap components (append_assoc w (path_of ws) rest)
    ∙ components-append w (path_of ws ++ rest) a.0 (path_of-AtBreak ws rest b)
    ∙ ap (◌∷◌ w) (components-path_of ws rest a.1 b)

pub AllNames-AllWords : (ws : List (List ℕ)) → AllNames ws → AllWords ws
AllNames-AllWords [] a = tt
AllNames-AllWords (w ∷ ws) a =
    (record { filled = a.0.filled; no_slash = a.0.no_slash }, AllNames-AllWords ws a.1)

-- A name is entered.
pub next-name : (w : List ℕ) (s : Place) → IsName w → next w s ≡ (w ∷ s.0, false)
unfolding next
next-name w s n = rw (n.not_dot, n.not_dots)

pub AllNames-append : (ws vs : List (List ℕ)) → AllNames ws → AllNames vs → AllNames (ws ++ vs)
AllNames-append [] vs a b = b
AllNames-append (w ∷ ws) vs a b = (a.0, AllNames-append ws vs a.1 b)

pub reverse-cons {ℓ} : {A : Type ℓ} (x : A) (xs : List A) → reverse (x ∷ xs) ≡ reverse xs ++ x ∷ []
reverse-cons x xs = reverse-append (x ∷ []) xs

pub AllNames-reverse : (ws : List (List ℕ)) → AllNames ws → AllNames (reverse ws)
AllNames-reverse [] a = tt
AllNames-reverse (w ∷ ws) a =
    rw (reverse-cons w ws)
      (AllNames-append (reverse ws) (w ∷ []) (AllNames-reverse ws a.1) (a.0, tt))

-- The components of the path shown for a place are its directories, outermost first.
pub components-show : (s : Place) → AllNames s.0 → components (show s) ≡ reverse s.0
unfolding show
components-show ([], up) a = unfold components in refl
components-show (w ∷ ws, up) a =
    components-path_of (reverse (w ∷ ws)) (if up then slash ∷ [] else [])
      (AllNames-AllWords (reverse (w ∷ ws)) (AllNames-reverse (w ∷ ws) a)) (ends up)
    ∙ ap (λ v. reverse (w ∷ ws) ++ v) (nothing up)
    ∙ append-nil (reverse (w ∷ ws))
  where
    ends : (up : Bool) → AtBreak (if up then slash ∷ [] else [])
    ends true = refl
    ends false = tt

    nothing : (up : Bool) → components (if up then slash ∷ [] else []) ≡ []
    nothing true = unfold components in refl
    nothing false = unfold components in refl
