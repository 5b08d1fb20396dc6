-- ===== src/KvState/Binds.antt =====
-- `sqlalchemy.text` replaces a marker `:name` by a parameter: a colon that no colon, backslash, letter,
-- digit or underscore stands before, and a name that no colon follows, as documented for
-- (?<![:\w\\]):([\w$]+)(?![:\w$]). A marker that a colon follows stays in the statement as it is.
use Prim.Native.Char.{code}
use shortfire.Prelude.{ℕ, Bool, true, false, ◌&&◌, ◌||◌, String, leb, nat_eq, if◌then◌else◌}

pub data Class : Type 0 where
  colon : Class
  backslash : Class
  word : Class
  dollar : Class
  other : Class

-- From the code point, for the characters of ASCII.
unfoldable pub class_of : ℕ → Class
class_of n =
    if nat_eq n 58
    then colon
    else if nat_eq n 92
    then backslash
    else if nat_eq n 36
    then dollar
    else if (leb 48 n && leb n 57)
        || ((leb 65 n && leb n 90) || ((leb 97 n && leb n 122) || nat_eq n 95))
    then word
    else other

-- Where the reading of a statement stands: before a character that may open a marker, after one that
-- keeps a colon from opening one, after an opening colon, in the name of a marker, or past a marker
-- that stays.
pub data Stage : Type 0 where
  free : Stage
  joined : Stage
  opened : Stage
  named : Stage
  left : Stage

abbrev pub outside : Class → Stage
outside colon = opened
outside backslash = joined
outside word = joined
outside dollar = free
outside other = free

abbrev pub next : Stage → Class → Stage
next free c = outside c
next joined colon = joined
next joined c = outside c
next opened word = named
next opened dollar = named
next opened colon = joined
next opened c = outside c
next named word = named
next named dollar = named
next named colon = left
next named c = outside c
next left c = left

unfoldable pub scan : Stage → String → Stage
scan s String.[] = s
scan s (String.◌∷◌ c rest) = scan (next s (class_of (code c))) rest

abbrev pub is_left : Stage → Bool
is_left left = true
is_left _ = false

-- A marker of the statement is not bound.
abbrev pub has_unbound : String → Bool
has_unbound sql = is_left (scan free sql)
