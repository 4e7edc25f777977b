-- ===== src/Names/Examples.antt =====
-- Concrete names.
use utbot_cpp.Base.{◌≡◌, codes, text_eq, contains_text, refl}
use utbot_cpp.Names.Keywords.{cpp_keywords, c_keywords, cpp_only_keywords, filter_out}
use utbot_cpp.Names.Decorate.{decorate, decorate-decorate, decorate_loop, mark, is_word_char}

decorate-decorate_example :
    decorate (decorate (codes "struct class x")) ≡ decorate (codes "struct class x")
decorate-decorate_example = decorate-decorate (codes "struct class x")

class_decorated : decorate (codes "struct class x") ≡ codes "struct class_ x"
unfolding decorate decorate_loop mark is_word_char contains_text cpp_only_keywords filter_out
    cpp_keywords c_keywords text_eq codes
class_decorated = refl
