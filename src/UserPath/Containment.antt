-- ===== src/UserPath/Containment.antt =====
-- Which paths `get_user_path` of src/util.c lets through: those below the user's directory, and
-- those below its siblings whose names only begin like it.
use mini_dropbox.Prelude.{
  ℕ, codes, zero, suc, ◌*◌, ◌≡◌, ◌<◌, ◌≤◌, refl, ap, ◌∙◌, sym, Bool, true, false, false≢true,
  Option, none, some, List, [], ◌∷◌, ◌++◌, ◌>>=◌, if◌then◌else◌, bytes_eq, starts_with,
  starts_with_iff, arith, length, length-append, take, append_assoc, append-nil,
}
use mathlib.Core.List.{reverse}
use mini_dropbox.UserMap.{Uuid}
use mini_dropbox.FilePath.{slash, component, normalize_path}
use mini_dropbox.FilePath.Spec.{
  Place, tail, walk, next, show, path_of, NoSlash, IsName, IsWord, AllNames, AllNames-AllWords,
  next-name, components, components-slash, components-cons, components-path_of, components-show,
  AllNames-reverse,
}
use mini_dropbox.FilePath.Normalize.{destination, normalize_path-absolute, destination-AllNames}
use mini_dropbox.UserPath.{path_max, storage_dir, snprintf, get_user_root, get_user_path}

take-all : (n : ℕ) (xs : List ℕ) → length xs ≤ n → take n xs ≡ xs
take-all zero [] h = refl
take-all zero (x ∷ xs) h = absurd (omega arith)
take-all (suc n) [] h = refl
take-all (suc n) (x ∷ xs) h = ap (◌∷◌ x) (take-all n xs (omega arith))

-- The directories of the storage.
abbrev pub storage : List (List ℕ)
storage = codes "var" ∷ codes "minibox" ∷ []

pub storage-AllNames : AllNames storage
unfolding bytes_eq
storage-AllNames = (
  record { filled = refl; no_slash = (refl, (refl, (refl, tt))); not_dot = refl; not_dots = refl },
  (
    record {
      filled = refl;
      no_slash = (refl, (refl, (refl, (refl, (refl, (refl, (refl, tt)))))));
      not_dot = refl;
      not_dots = refl;
    },
    tt,
  ),
)

-- libuuid prints a token as 36 characters, hexadecimal digits and dashes.
pub record IsToken (t : List ℕ) : Type 0 where
  pub size : length t ≡ 36
  pub name : IsName t

module _ (unparse : Uuid → List ℕ) (token : Uuid) (printed : IsToken (unparse token)) where
  root_eq : get_user_root unparse token ≡ storage_dir ++ slash ∷ unparse token
  unfolding get_user_root
  root_eq =
      take-all 4095 (storage_dir ++ slash ∷ unparse token)
        (omega (arith, printed.size, length-append storage_dir (slash ∷ unparse token)))

  -- The path below the root that is normalised, if it fits the buffer.
  abbrev pub requested : List ℕ → List ℕ
  requested path = storage_dir ++ slash ∷ (unparse token ++ slash ∷ path)

  -- What is normalised of it, which is cut where the buffer ends.
  abbrev pub buffered : List ℕ → List ℕ
  buffered path = snprintf (2 * path_max) (requested path)

  -- Whatever the path, the result is the path that the walk from the root of the file system along
  -- what the buffer holds reaches, if that begins with the user's directory, and else NULL.
  get_user_path-buffered :
      (path : List ℕ)
      → get_user_path unparse true path token
        ≡ some (
            if starts_with (get_user_root unparse token) (show (destination (buffered path)))
            then some (show (destination (buffered path)))
            else none)
  unfolding get_user_path
  get_user_path-buffered path =
      ap
        (λ r.
          normalize_path true (some (snprintf (2 * path_max) (r ++ slash ∷ path))) >>= λ normalized.
          some (elim normalized [
            | none ↦ none
            | some text ↦ if starts_with (get_user_root unparse token) text then some text else none
          ]))
        root_eq
      ∙ rw (
          normalize_path-absolute
            (take 8190 (codes "var/minibox" ++ slash ∷ (unparse token ++ slash ∷ path))))

  buffered_eq : (path : List ℕ) → length path ≤ path_max → buffered path ≡ requested path
  buffered_eq path h =
      take-all 8191 (requested path)
        (omega (arith, printed.size, length-append (unparse token) (slash ∷ path)))

  -- For a path that fits, the result is the path that the walk from the root of the file system
  -- reaches, if that begins with the user's directory, and else NULL.
  pub get_user_path-destination :
      (path : List ℕ)
      → length path ≤ path_max
      → get_user_path unparse true path token
        ≡ some (
            if starts_with (get_user_root unparse token) (show (destination (requested path)))
            then some (show (destination (requested path)))
            else none)
  get_user_path-destination path h =
      get_user_path-buffered path
      ∙ ap
          (λ a. some (
            if starts_with (get_user_root unparse token) (show (destination a))
            then some (show (destination a))
            else none))
          (buffered_eq path h)

  -- The first component behind a string without slashes begins with that string.
  component-append : (t r : List ℕ) → NoSlash t → (component (t ++ r)).0 ≡ t ++ (component r).0
  unfolding component
  component-append [] r h = refl
  component-append (c ∷ t) r h = rw (h.0, component-append t r h.1)

  components-token :
      (t r : List ℕ)
      → IsName t
      → (s : List ℕ) × (rest : List (List ℕ)) × (components (t ++ r) ≡ (t ++ s) ∷ rest)
  components-token [] r n = absurd (false≢true (sym n.filled ∙ unfold bytes_eq in refl))
  components-token (c ∷ t) r n = (
    (component r).0,
    components (component (c ∷ (t ++ r))).1,
    components-cons c (t ++ r) n.no_slash.0
        ∙ ap (λ w. w ∷ components (component (c ∷ (t ++ r))).1)
            (component-append (c ∷ t) r n.no_slash),
  )

  components-root :
      (r : List ℕ)
      → components ((storage_dir ++ slash ∷ unparse token) ++ r)
        ≡ codes "var" ∷ codes "minibox" ∷ components (unparse token ++ r)
  unfolding path_of
  components-root r =
      components-path_of storage (slash ∷ (unparse token ++ r))
        (AllNames-AllWords storage storage-AllNames) refl
      ∙ ap (λ ws. storage ++ ws) (components-slash slash (unparse token ++ r) refl)

  -- What is let through, of a path of any length, lies below the storage directory, in a directory
  -- whose name begins with the user's token; none of its components is "." or "..". The token is
  -- printed as 36 characters that are a file's name.
  pub get_user_path-contained :
      (path q : List ℕ)
      → get_user_path unparse true path token ≡ some (some q)
      → (s : List ℕ) × (rest : List (List ℕ)) × (components q
          ≡ codes "var" ∷ codes "minibox" ∷ (unparse token ++ s) ∷ rest)
        × AllNames (components q)
  get_user_path-contained path q run =
      let through = sym (get_user_path-buffered path) ∙ run in
      let d = destination (buffered path) in
      let (e, starts) =
        passed (starts_with (get_user_root unparse token) (show d)) (show d) q through in
      let (r, f) = (starts_with_iff (get_user_root unparse token) (show d)).0 starts in
      let (s, rest, g) = components-token (unparse token) r printed.name in
      let a =
        destination-AllNames
          (take 8190 (codes "var/minibox" ++ slash ∷ (unparse token ++ slash ∷ path))) in
      (
        s,
        rest,
        ap components (sym e ∙ f ∙ ap (λ x. x ++ r) root_eq)
            ∙ components-root r
            ∙ ap (λ ws. codes "var" ∷ codes "minibox" ∷ ws) g,
        rw (ap components (sym e) ∙ components-show d a) (AllNames-reverse d.0 a),
      )
    where
      passed :
          (b : Bool) (x q : List ℕ)
          → ◌≡◌ {A = Option (Option (List ℕ))} (some (if b then some x else none)) (some (some q))
          → (x ≡ q) × (b ≡ true)
      passed true x q e = (cc, refl)
      passed false x q e = cc

  show-starts :
      (d : Place) (s : List ℕ) (rest : List (List ℕ))
      → reverse d.0 ≡ codes "var" ∷ codes "minibox" ∷ (unparse token ++ s) ∷ rest
      → starts_with (get_user_root unparse token) (show d) ≡ true
  show-starts ([], up) s rest e = cc
  show-starts (w ∷ ws, up) s rest e =
      (starts_with_iff (get_user_root unparse token) (show (w ∷ ws, up))).1
        (s ++ (path_of rest ++ ending), shown)
    where
      ending : List ℕ
      ending = if up then slash ∷ [] else []

      split_path :
          path_of (codes "var" ∷ codes "minibox" ∷ (unparse token ++ s) ∷ rest) ++ ending
          ≡ (storage_dir ++ slash ∷ unparse token) ++ (s ++ (path_of rest ++ ending))
      split_path = unfold path_of in simp append_assoc

      shown : show (w ∷ ws, up) ≡ get_user_root unparse token ++ (s ++ (path_of rest ++ ending))
      shown =
          unfold show in
          ap (λ v. path_of v ++ ending) e
          ∙ split_path
          ∙ ap (λ x. x ++ (s ++ (path_of rest ++ ending))) (sym root_eq)

  -- Whatever leads into a directory of the storage whose name begins with the user's token is let
  -- through, also where the name goes on behind the token.
  pub get_user_path-accepts :
      (path s : List ℕ) (rest : List (List ℕ))
      → length path ≤ path_max
      → reverse (destination (requested path)).0
        ≡ codes "var" ∷ codes "minibox" ∷ (unparse token ++ s) ∷ rest
      → get_user_path unparse true path token ≡ some (some (show (destination (requested path))))
  get_user_path-accepts path s rest h e =
      get_user_path-destination path h ∙ rw (show-starts (destination (requested path)) s rest e)

  next_up : (s : Place) → next (codes "..") s ≡ (tail s.0, true)
  unfolding next bytes_eq
  next_up s = refl

  NoSlash-append : (u v : List ℕ) → NoSlash u → NoSlash v → NoSlash (u ++ v)
  NoSlash-append [] v a b = b
  NoSlash-append (c ∷ u) v a b = (a.0, NoSlash-append u v a.1 b)

  longer-IsName : (w : List ℕ) → 2 < length w → NoSlash w → IsName w
  unfolding bytes_eq
  longer-IsName [] h n = absurd (omega arith)
  longer-IsName (a ∷ []) h n = absurd (omega arith)
  longer-IsName (a ∷ b ∷ []) h n = absurd (omega arith)
  longer-IsName (a ∷ b ∷ c ∷ w) h n = record {
    filled = refl;
    no_slash = n;
    not_dot = ground arith;
    not_dots = ground arith;
  }

  -- The directory beside the user's own whose name is the token and more.
  abbrev pub sibling : List ℕ → List ℕ
  sibling s = unparse token ++ s

  destination-sibling :
      (s : List ℕ)
      → NoSlash s
      → destination (requested (codes "../" ++ sibling s))
        ≡ (sibling s ∷ codes "minibox" ∷ codes "var" ∷ [], false)
  destination-sibling s free = ap (λ ws. walk ws ([], false)) parts ∙ steps
    where
      name : IsName (sibling s)
      name =
          longer-IsName (sibling s) (omega (arith, printed.size, length-append (unparse token) s))
            (NoSlash-append (unparse token) s printed.name.no_slash free)

      words : List (List ℕ)
      words = codes "var" ∷ codes "minibox" ∷ unparse token ∷ codes ".." ∷ sibling s ∷ []

      as_word : {w : List ℕ} → IsName w → IsWord w
      as_word n = record { filled = n.filled; no_slash = n.no_slash }

      shape : requested (codes "../" ++ sibling s) ≡ path_of words ++ []
      shape = unfold path_of in simp append-nil

      parts : components (requested (codes "../" ++ sibling s)) ≡ words
      parts =
          unfold path_of bytes_eq components in
          ap components shape
          ∙ components-path_of words []
              (
                as_word storage-AllNames.0,
                (
                  as_word storage-AllNames.1.0,
                  (
                    as_word printed.name,
                    (record { filled = refl; no_slash = (refl, (refl, tt)) }, (as_word name, tt)),
                  ),
                ),
              )
              tt

      steps : walk words ([], false) ≡ (sibling s ∷ codes "minibox" ∷ codes "var" ∷ [], false)
      steps =
          unfold walk in
          rw (
            next-name (codes "var") ([], false) storage-AllNames.0,
            next-name (codes "minibox") (codes "var" ∷ [], false) storage-AllNames.1.0,
            next-name (unparse token) (codes "minibox" ∷ codes "var" ∷ [], false) printed.name,
            next_up (unparse token ∷ codes "minibox" ∷ codes "var" ∷ [], false),
            next-name (sibling s) (codes "minibox" ∷ codes "var" ∷ [], true) name,
          )

  -- The path "../" before the user's own token and at most 4000 more bytes without a slash is let
  -- through, and leads to that sibling of the user's directory.
  pub get_user_path-sibling :
      (s : List ℕ)
      → NoSlash s
      → length s ≤ 4000
      → get_user_path unparse true (codes "../" ++ sibling s) token
        ≡ some (some (storage_dir ++ slash ∷ sibling s))
  get_user_path-sibling s free h =
      get_user_path-accepts (codes "../" ++ sibling s) s []
        (omega (arith, printed.size, length-append (unparse token) s))
        (ap (λ d. reverse d.0) (destination-sibling s free))
      ∙ ap (λ d. some (some (show d))) (destination-sibling s free)
      ∙ (unfold show path_of in simp append-nil)
