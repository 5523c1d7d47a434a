-- ===== src/Strategy/Sample.antt =====
-- Whole numbers in the place of floats, and texts that are no numbers.
use finbar.Common.{String, none, ℤ}
use finbar.Strategy.Values.{Json, text, Texts}

abbrev show_text : Json ℤ → String
show_text (text s) = s
show_text _ = ""

instance abbrev pub plain_texts : Texts ℤ
plain_texts = record { parse_float = λ s. none; show = show_text }
