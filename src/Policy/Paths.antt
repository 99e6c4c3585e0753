-- ===== src/Policy/Paths.antt =====
-- `path/filepath` on Unix, as internal/policy uses it: `Base` and `Clean`, which work on the text.
use ironrun.Prelude.{
  Bool, false, ◌||◌, List, [], ◌∷◌, ◌++◌, reverse, ◌==◌, if◌then◌else◌, Bytes, codes, bytes_eq,
  join,
}

-- Of the path from its end: the bytes before the last slash.
unfoldable pub until_slash : Bytes → Bytes
until_slash [] = []
until_slash (c ∷ cs) = let rest = until_slash cs in if c == b'/' then [] else c ∷ rest

unfoldable pub past_slashes : Bytes → Bytes
past_slashes [] = []
past_slashes (c ∷ cs) = let rest = past_slashes cs in if c == b'/' then rest else c ∷ cs

unfoldable pub base_or_root : Bytes → Bytes
base_or_root [] = codes "/"
base_or_root (c ∷ cs) = c ∷ cs

-- `filepath.Base`
unfoldable pub base : Bytes → Bytes
unfolding until_slash past_slashes base_or_root
base [] = codes "."
base (c ∷ cs) = base_or_root (reverse (until_slash (past_slashes (reverse (c ∷ cs)))))

-- The parts between slashes, with the part that is being read.
unfoldable pub parts : Bytes → Bytes → List Bytes
parts part [] = part ∷ []
parts part (c ∷ cs) =
    let ended = parts [] cs in
    let more = parts (part ++ c ∷ []) cs in if c == b'/' then part ∷ ended else more

-- One part after those kept, the last first: `..` drops the last, unless that is a `..` too; at the
-- root it has no effect.
unfoldable pub up : Bool → List Bytes → List Bytes
up rooted [] = if rooted then [] else codes ".." ∷ []
up rooted (p ∷ ps) = if bytes_eq p (codes "..") then codes ".." ∷ p ∷ ps else ps

unfoldable pub resolve : Bool → List Bytes → List Bytes → List Bytes
unfolding up
resolve rooted kept [] = kept
resolve rooted kept (p ∷ ps) =
    resolve rooted
      (if bytes_eq p [] || bytes_eq p (codes ".")
        then kept
        else if bytes_eq p (codes "..")
        then up rooted kept
        else p ∷ kept)
      ps

unfoldable pub or_dot : Bytes → Bytes
or_dot [] = codes "."
or_dot (c ∷ cs) = c ∷ cs

unfoldable pub is_rooted : Bytes → Bool
is_rooted [] = false
is_rooted (c ∷ cs) = c == b'/'

-- `filepath.Clean`
unfoldable pub clean : Bytes → Bytes
unfolding parts resolve or_dot is_rooted
clean path =
    let rooted = is_rooted path in
    or_dot (
      (if rooted then codes "/" else [])
      ++ join (codes "/") (reverse (resolve rooted [] (parts [] path))))
