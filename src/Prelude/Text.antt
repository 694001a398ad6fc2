-- ===== src/Prelude/Text.antt =====
-- What the program uses of Python's `str`: `strip`, `in`, `startswith`.
use Prim.Native.Char.{Char, code}
use Prim.Native.String.{String}
use mathlib.Core.Bool.{Bool, true, false, ◌&&◌, ◌||◌}
use astation.Prelude.Tests.{if◌then◌else◌, leb, eqb}
use astation.Prelude.Eq.{◌==◌, string_eq}

-- `str.isspace` of one character
abbrev pub is_space : Char → Bool
is_space c =
    (leb 9 (code c) && leb (code c) 13)
    || ((leb 28 (code c) && leb (code c) 32)
        || (eqb (code c) 133
            || (eqb (code c) 160
                || (eqb (code c) 5760
                    || ((leb 8192 (code c) && leb (code c) 8202)
                        || (eqb (code c) 8232
                            || (eqb (code c) 8233
                                || (eqb (code c) 8239
                                    || (eqb (code c) 8287 || eqb (code c) 12288)))))))))

unfoldable pub lstrip : String → String
lstrip String.[] = ""
lstrip (String.◌∷◌ c s) = let rest = lstrip s in if is_space c then rest else String.◌∷◌ c s

unfoldable pub rstrip : String → String
rstrip String.[] = ""
rstrip (String.◌∷◌ c s) =
    let rest = rstrip s in if is_space c && rest == "" then "" else String.◌∷◌ c rest

-- `s.strip()`
unfoldable pub strip : String → String
unfolding lstrip rstrip
strip s = rstrip (lstrip s)

-- `s.startswith(prefix)`
unfoldable pub starts_with : String → String → Bool
starts_with String.[] s = true
starts_with (String.◌∷◌ c p) String.[] = false
starts_with (String.◌∷◌ c p) (String.◌∷◌ d s) =
    let rest = starts_with p s in (String.◌∷◌ c String.[] == String.◌∷◌ d String.[]) && rest

-- `inner in outer`
unfoldable pub contains : String → String → Bool
unfolding starts_with
contains inner String.[] = inner == ""
contains inner (String.◌∷◌ c s) =
    let rest = contains inner s in starts_with inner (String.◌∷◌ c s) || rest
