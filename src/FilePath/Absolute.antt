-- ===== src/FilePath/Absolute.antt =====
-- `normalize_path` of src/util.c on absolute paths: no write leaves the buffer, the loop ends, and
-- the result is the path of the place that the walk over the components reaches.
use mini_dropbox.Prelude.{
  ℕ, zero, suc, ◌+◌, ◌≡◌, ◌<◌, ◌≤◌, refl, ap, ◌∙◌, sym, true, false, false≢true, Option, some, List,
  [], ◌∷◌, ◌++◌, if◌then◌else◌, lt→ltb, ◌==◌, bytes_eq, arith, length, length-append, Bool-cases,
  inl, inr, append_assoc,
}
use mathlib.Core.List.{reverse, reverse-reverse}
use mini_dropbox.FilePath.{
  slash, dot, push, copy, component, rewind_to_root, up_absolute, separate_unless, add_component,
  normalize_loop,
}
use mini_dropbox.FilePath.Spec.{
  Place, tail, next, walk, NoSlash, AtBreak, AllNames, components, component-NoSlash,
  component-AtBreak, components-slash, walk-next, next-AllNames, reverse-cons,
}

-- The buffer, newest byte first, when it ends in a slash behind the directories, or in a name.
abbrev pub base : List (List ℕ) → List ℕ
base [] = slash ∷ []
base (w ∷ ws) = slash ∷ (reverse w ++ base ws)

abbrev pub full : List (List ℕ) → List ℕ
full [] = slash ∷ []
full (w ∷ ws) = reverse w ++ base ws

abbrev pub buffer : Place → List ℕ
buffer (st, up) = if up then base st else full st

pub push-some : (room c : ℕ) (out : List ℕ) → length out < room → push room c out ≡ some (c ∷ out)
unfolding push
push-some room c out h = rw (lt→ltb _ _ h)

pub copy-some :
    (room : ℕ) (w out : List ℕ)
    → length w + length out ≤ room
    → copy room w out ≡ some (reverse w ++ out)
unfolding copy
copy-some room [] out h = refl
copy-some room (c ∷ w) out h = rw (push-some room c out (omega arith)) (
    copy-some room w (c ∷ out) (omega arith)
    ∙ ap some (sym (ap (λ r. r ++ out) (reverse-cons c w) ∙ append_assoc (reverse w) (c ∷ []) out)))

pub length-reverse : (w : List ℕ) → length (reverse w) ≡ length w
length-reverse [] = refl
length-reverse (c ∷ w) =
    ap length (reverse-cons c w)
    ∙ omega (arith, length-append (reverse w) (c ∷ []), length-reverse w)

NoSlash-append : (u v : List ℕ) → NoSlash u → NoSlash v → NoSlash (u ++ v)
NoSlash-append [] v a b = b
NoSlash-append (c ∷ u) v a b = (a.0, NoSlash-append u v a.1 b)

pub NoSlash-reverse : (w : List ℕ) → NoSlash w → NoSlash (reverse w)
NoSlash-reverse [] a = tt
NoSlash-reverse (c ∷ w) a =
    rw (reverse-cons c w) (NoSlash-append (reverse w) (c ∷ []) (NoSlash-reverse w a.1) (a.0, tt))

rewind_to_root-stop : (u v : List ℕ) → NoSlash u → rewind_to_root (u ++ slash ∷ v) ≡ slash ∷ v
unfolding rewind_to_root
rewind_to_root-stop [] [] h = refl
rewind_to_root-stop [] (c ∷ v) h = refl
rewind_to_root-stop (c ∷ []) v h = rw h.0 (rewind_to_root-stop [] v tt)
rewind_to_root-stop (c ∷ d ∷ u) v h = rw h.0 (rewind_to_root-stop (d ∷ u) v h.1)

up_absolute-stop :
    (c : ℕ) (u v : List ℕ) → NoSlash u → up_absolute (c ∷ (u ++ slash ∷ v)) ≡ slash ∷ v
unfolding up_absolute
up_absolute-stop c [] v h = rewind_to_root-stop [] v tt
up_absolute-stop c (d ∷ u) v h = rewind_to_root-stop (d ∷ u) v h

-- Behind the bytes of a name the buffer goes on with a slash.
base-slash : (ws : List (List ℕ)) → (v : List ℕ) × (base ws ≡ slash ∷ v)
base-slash [] = ([], refl)
base-slash (w ∷ ws) = (reverse w ++ base ws, refl)

pub reverse-filled :
    (w : List ℕ) → bytes_eq w [] ≡ false → (c : ℕ) × (u : List ℕ) × (reverse w ≡ c ∷ u)
unfolding bytes_eq
reverse-filled w h = go (reverse w) refl
  where
    go : (r : List ℕ) → reverse w ≡ r → (c : ℕ) × (u : List ℕ) × (reverse w ≡ c ∷ u)
    go (c ∷ u) e = (c, u, e)
    go [] e =
        absurd
          (false≢true (sym h ∙ ap (λ x. bytes_eq x []) (sym (reverse-reverse w) ∙ ap reverse e)))

up_absolute-buffer : (s : Place) → AllNames s.0 → up_absolute (buffer s) ≡ base (tail s.0)
unfolding up_absolute
up_absolute-buffer ([], true) a = refl
up_absolute-buffer ([], false) a = refl
up_absolute-buffer (w ∷ ws, true) a =
    let (v, e) = base-slash ws in
    rw e (up_absolute-stop slash (reverse w) v (NoSlash-reverse w a.0.no_slash))
up_absolute-buffer (w ∷ ws, false) a =
    let (v, e) = base-slash ws in
    let (c, u, f) = reverse-filled w a.0.filled in
    let free : NoSlash (c ∷ u) = rw f at (NoSlash-reverse w a.0.no_slash) in
    rw (e, f) (up_absolute-stop c u v free.1)

module _ (room : ℕ) where
  separate-buffer :
      (s : Place)
      → AllNames s.0
      → length (buffer s) < room
      → separate_unless room (buffer s) ≡ some (base s.0)
  unfolding separate_unless
  separate-buffer ([], true) a h = refl
  separate-buffer ([], false) a h = refl
  separate-buffer (w ∷ ws, true) a h = refl
  separate-buffer (w ∷ ws, false) a h =
      let (c, u, f) = reverse-filled w a.0.filled in
      let free : NoSlash (c ∷ u) = rw f at (NoSlash-reverse w a.0.no_slash) in
      rw f (rw free.0 (push-some room slash (c ∷ (u ++ base ws)) (rw f at h)))

  length-base : (s : Place) → length (base s.0) ≤ length (buffer s) + 1
  length-base ([], true) = omega arith
  length-base ([], false) = omega arith
  length-base (w ∷ ws, true) = omega arith
  length-base (w ∷ ws, false) = omega arith

  length-up : (s : Place) → length (base (tail s.0)) ≤ length (buffer s)
  length-up ([], true) = omega arith
  length-up ([], false) = omega arith
  length-up (w ∷ ws, true) = omega (arith, length-append (reverse w) (base ws))
  length-up (w ∷ ws, false) = omega (arith, length-append (reverse w) (base ws))

  -- One component: no write leaves the buffer, and the place moves as the walk does.
  add_component-next :
      (w : List ℕ) (s : Place)
      → AllNames s.0
      → length (buffer s) + length w < room
      → add_component room true w (buffer s) ≡ some (buffer (next w s))
  unfolding add_component next
  add_component-next w s a h = elim (Bool-cases (bytes_eq w (dot ∷ []))) [
    | inl e ↦ rw e
    | inr e ↦ elim (Bool-cases (bytes_eq w (dot ∷ dot ∷ []))) [
      | inl f ↦ rw (e, f) (ap some (up_absolute-buffer s a))
      | inr f ↦
          rw (e, f, separate-buffer s a (omega arith))
            (copy-some room w (base s.0) (omega (arith, length-base s)))
    ]
  ]

  length-next :
      (w : List ℕ) (s : Place) → length (buffer (next w s)) ≤ length (buffer s) + 1 + length w
  unfolding next
  length-next w s = elim (Bool-cases (bytes_eq w (dot ∷ []))) [
    | inl e ↦ rw e (omega arith)
    | inr e ↦ elim (Bool-cases (bytes_eq w (dot ∷ dot ∷ []))) [
      | inl f ↦ rw (e, f) (omega (arith, length-up s))
      | inr f ↦
          rw (e, f)
            (omega (arith, length-base s, length-append (reverse w) (base s.0), length-reverse w))
    ]
  ]

length-component : (p : List ℕ) → length (component p).0 + length (component p).1 ≡ length p
unfolding component
length-component [] = omega arith
length-component (c ∷ p) = elim (Bool-cases (c == slash)) [
  | inl e ↦ rw e (omega arith)
  | inr e ↦ rw e (omega (arith, length-component p))
]

component-filled :
    (c : ℕ) (p : List ℕ) → (c == slash) ≡ false → bytes_eq (component (c ∷ p)).0 [] ≡ false
unfolding component bytes_eq
component-filled c p e = rw e

length-word : (c : ℕ) (p : List ℕ) → (c == slash) ≡ false → 0 < length (component (c ∷ p)).0
unfolding component
length-word c p e = rw e (omega arith)

-- What a component at the head of `p` may need beside its own bytes.
abbrev extra : List ℕ → ℕ
extra [] = 0
extra (c ∷ p) = if c == slash then 0 else 1

extra-break : (p : List ℕ) → AtBreak p → extra p ≡ 0
extra-break [] b = refl
extra-break (c ∷ p) b = rw b

extra-le : (p : List ℕ) → extra p ≤ 1
extra-le [] = omega arith
extra-le (c ∷ p) = ground arith

pub record Walked (room : ℕ) (p : List ℕ) (s : Place) (result : Option (List ℕ)) : Type 0 where
  pub result_eq : result ≡ some (buffer (walk (components p) s))
  pub names : AllNames (walk (components p) s).0
  pub fits : length (buffer (walk (components p) s)) < room

Walked-eq :
    {room : ℕ} {p q : List ℕ} {s t : Place} {r : Option (List ℕ)}
    → walk (components p) s ≡ walk (components q) t
    → Walked room q t r
    → Walked room p s r
Walked-eq e w = record {
  result_eq = w.result_eq ∙ ap (λ x. some (buffer x)) (sym e);
  names = rw e w.names;
  fits = rw e w.fits;
}

-- With more fuel than bytes, and room, the loop ends at the place that the walk reaches.
pub normalize_loop-Walked :
    (fuel room : ℕ) (p : List ℕ) (s : Place)
    → AllNames s.0
    → length p < fuel
    → length (buffer s) + length p + extra p < room
    → Walked room p s (normalize_loop fuel room true p (buffer s))
unfolding normalize_loop
normalize_loop-Walked zero room p s a f h = absurd (omega arith)
normalize_loop-Walked (suc fuel) room [] s a f h = record {
  result_eq = unfold components walk in refl;
  names = unfold components walk in a;
  fits = unfold components walk in omega arith;
}
normalize_loop-Walked (suc fuel) room (c ∷ p) s a f h = elim (Bool-cases (c == slash)) [
  | inl e ↦
      let ih = normalize_loop-Walked fuel room p s a (omega arith) (omega (arith, extra-le p)) in
      rw e (Walked-eq (ap (λ ws. walk ws s) (components-slash c p e)) ih)
  | inr e ↦
      let word = (component (c ∷ p)).0 in
      let rest = (component (c ∷ p)).1 in
      let sizes : length word + length rest ≡ suc (length p) = length-component (c ∷ p) in
      let need : extra (c ∷ p) ≡ 1 = rw e in
      let free = component-NoSlash (c ∷ p) in
      let ih =
        normalize_loop-Walked fuel room rest (next word s)
          (next-AllNames word s (component-filled c p e) free a)
          (omega (arith, sizes, length-word c p e))
          (omega (
            arith,
            sizes,
            need,
            length-next room word s,
            extra-break rest (component-AtBreak (c ∷ p)),
          )) in
      rw (e, add_component-next room word s a (omega (arith, sizes, need)))
        (Walked-eq (walk-next c p s e) ih)
]
