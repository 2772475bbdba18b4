-- ===== src/Printing/Names.antt =====
-- The names of the files that document_modules writes (cxx/src/pluginplay/printing/helpers.cpp and
-- document_modules.cpp).
pub mod Clean
use Prim.Native.Char.{Char, code}
use Prim.Native.String.{[], ◌∷◌}
use plugin_play.Base.{String, concat, ◌==◌, if◌then◌else◌}

-- std::replace
unfoldable pub replace : Char → Char → String → String
replace old new [] = []
replace old new (c ∷ s) = (if code c == code old then new else c) ∷ replace old new s

-- replace_invalid_chars(str, invalid_chars, replacement), one invalid character after the other
unfoldable pub replace_invalid_chars : String → String → Char → String
unfolding replace
replace_invalid_chars str [] replacement = str
replace_invalid_chars str (c ∷ invalid) replacement =
    replace_invalid_chars (replace c replacement str) invalid replacement

abbrev pub invalid_chars : String
invalid_chars = "<>:\"|?*\\/ "

-- '_'
abbrev pub replacement_char : Char
replacement_char = Char.char 95 tt

abbrev pub clean_name : String → String
clean_name name = replace_invalid_chars name invalid_chars replacement_char

abbrev pub page_file : String → String
page_file name = concat (clean_name name) ".rst"
