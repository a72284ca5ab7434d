-- ===== src/FilePath.antt =====
-- `normalize_path` of src/util.c. A string is the list of its bytes in front of the NUL.
-- The buffer `out` is held by its first `i` bytes, newest first: `out[i - 1]` is the head, and `i--`
-- drops it. `none` is undefined behaviour (a write past the buffer), or fuel that ran out.
pub mod Spec
pub mod Absolute
pub mod Normalize
pub mod Names
pub mod Relative
mod Tests
use mini_dropbox.Prelude.{
  ℕ, zero, suc, ◌+◌, ◌-◌, ◌≡◌, Bool, true, false, not, ◌&&◌, ◌||◌, Option, none, some, List, [],
  ◌∷◌, ◌++◌, ◌>>=◌, if◌then◌else◌, ltb, ◌==◌, bytes_eq, length,
}
use mathlib.Core.List.{reverse}

abbrev pub slash : ℕ
slash = b'/'

abbrev pub dot : ℕ
dot = b'.'

-- out[i++] = c, in a buffer of `room` bytes
unfoldable pub push : ℕ → ℕ → List ℕ → Option (List ℕ)
push room c out = if ltb (length out) room then some (c ∷ out) else none

-- memcpy(out + i, bytes, len); i += len
unfoldable pub copy : ℕ → List ℕ → List ℕ → Option (List ℕ)
copy room [] out = some out
copy room (c ∷ bytes) out = push room c out >>= copy room bytes

-- while (*p && *p != '/') p++: the bytes passed over, and the rest
unfoldable pub component : List ℕ → List ℕ × List ℕ
component [] = ([], [])
component (c ∷ p) =
    let (word, rest) = component p in if c == slash then ([], c ∷ p) else (c ∷ word, rest)

-- while (i > 1 && out[i - 1] != '/') i--
unfoldable pub rewind_to_root : List ℕ → List ℕ
rewind_to_root [] = []
rewind_to_root (c ∷ []) = c ∷ []
rewind_to_root (c ∷ d ∷ out) = if c == slash then c ∷ d ∷ out else rewind_to_root (d ∷ out)

-- while (i > 0 && out[i - 1] != '/') i--
unfoldable pub rewind : List ℕ → List ℕ
rewind [] = []
rewind (c ∷ out) = if c == slash then c ∷ out else rewind out

-- if (i > 0) i--
unfoldable pub drop_last : List ℕ → List ℕ
drop_last [] = []
drop_last (c ∷ out) = out

-- ".." of an absolute path: don't go past root
unfoldable pub up_absolute : List ℕ → List ℕ
unfolding rewind_to_root
up_absolute [] = []
up_absolute (c ∷ []) = c ∷ []
up_absolute (c ∷ d ∷ out) = rewind_to_root (d ∷ out)

-- out[i - 1] == '.' && (i < 2 || out[i - 2] == '/')
unfoldable pub ends_in_dot : List ℕ → Bool
ends_in_dot [] = false
ends_in_dot (c ∷ []) = c == dot
ends_in_dot (c ∷ d ∷ out) = c == dot && d == slash

-- if (i > 0) out[i++] = '/'
unfoldable pub separate : ℕ → List ℕ → Option (List ℕ)
separate room [] = some []
separate room (c ∷ out) = push room slash (c ∷ out)

-- ".." of a relative path
unfoldable pub up_relative : ℕ → List ℕ → Option (List ℕ)
unfolding rewind drop_last ends_in_dot separate push copy
up_relative room [] = copy room (dot ∷ dot ∷ []) []
up_relative room (c ∷ out) =
    if ends_in_dot (c ∷ out)
    then separate room (c ∷ out) >>= copy room (dot ∷ dot ∷ [])
    else some (drop_last (rewind out))

-- if (i > 0 && out[i - 1] != '/') out[i++] = '/'
unfoldable pub separate_unless : ℕ → List ℕ → Option (List ℕ)
separate_unless room [] = some []
separate_unless room (c ∷ out) = if c == slash then some (c ∷ out) else push room slash (c ∷ out)

-- The body of the loop at a component that starts at `start`.
unfoldable pub add_component : ℕ → Bool → List ℕ → List ℕ → Option (List ℕ)
unfolding up_absolute up_relative separate_unless copy push bytes_eq
add_component room is_absolute word out =
    if bytes_eq word (dot ∷ [])
    then some out
    else if bytes_eq word (dot ∷ dot ∷ [])
    then if is_absolute then some (up_absolute out) else up_relative room out
    else (separate_unless room out >>= copy room word)

-- while (*p)
unfoldable pub normalize_loop : ℕ → ℕ → Bool → List ℕ → List ℕ → Option (List ℕ)
normalize_loop zero room is_absolute p out = none
normalize_loop (suc fuel) room is_absolute [] out = some out
normalize_loop (suc fuel) room is_absolute (c ∷ p) out =
    let skip = normalize_loop fuel room is_absolute p out in
    let (word, rest) = component (c ∷ p) in
    let next =
      add_component room is_absolute word out >>= normalize_loop fuel room is_absolute rest in
    if c == slash then skip else next

-- if (i == 0) out[i++] = '.'
unfoldable pub dot_if_empty : ℕ → List ℕ → Option (List ℕ)
unfolding push
dot_if_empty room [] = push room dot []
dot_if_empty room (c ∷ out) = some (c ∷ out)

-- out[i] = '\0', which has to fit too
unfoldable pub terminate : ℕ → List ℕ → Option (List ℕ)
terminate room out = if ltb (length out) room then some (reverse out) else none

unfoldable pub is_absolute_path : List ℕ → Bool
is_absolute_path [] = false
is_absolute_path (c ∷ p) = c == slash

-- A NULL path is `none`, and so is the result NULL; `allocated` says whether `malloc` gave memory.
unfoldable pub normalize_path : Bool → Option (List ℕ) → Option (Option (List ℕ))
unfolding component add_component normalize_loop dot_if_empty terminate is_absolute_path
normalize_path allocated none = some none
normalize_path false (some path) = some none
normalize_path true (some path) = do
  let room = length path + 2
  let is_absolute = is_absolute_path path
  root ← if is_absolute then push room slash [] else some []
  out ← normalize_loop (length path + 1) room is_absolute path root
  shown ← dot_if_empty room out
  text ← terminate room shown
  some (some text)
