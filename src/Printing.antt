-- ===== src/Printing.antt =====
-- Documentation of modules (cxx/src/pluginplay/printing). reSTPrinter is
-- detail_/rest_printer.cpp; the streams it writes to are parameters.
pub mod Inputs
pub mod Tables
pub mod Document
pub mod Names
pub mod Files
pub mod Mermaid
use Prim.Native.Char.{Char, code}
use Prim.Native.Nat.{ℕ, zero, suc}
use Prim.Native.String.{char_at, len}
use plugin_play.Base.{String, concat, ◌+◌, ◌-◌, ◌%◌, ltb, ◌==◌, if◌then◌else◌}
use plugin_play.Base.Result.{ok, runtime_error, guard}
use plugin_play.Base.Exec.{Exec, reads, modify, ◌>>=◌, ◌>>◌}

-- std::ostream and the utilities::printing::WordWrapStream over it, and the text that was written.
pub record Streams (S : Type 0) : Type 0 where
  pub blank : S
  pub verbatim : String → S → S
  pub wrapped : String → S → S
  pub text : S → String

-- reSTPrinter: m_section_ and the streams
pub record Printer (S : Type 0) : Type 0 where
  pub section : ℕ
  pub out : S

-- the default arguments of the constructor
abbrev pub underline_chars : String
underline_chars = "#*=-^\""

abbrev pub overline_chars : String
overline_chars = "#*      "

-- std::string(n, c)
abbrev pub repeat : ℕ → Char → String
repeat zero c = String.[]
repeat (suc n) c = String.◌∷◌ c (repeat n c)

abbrev pub line : String → String
line s = concat s "\n"

module _ {S : Type 0} (os : Streams S) where
  -- a write that does not change the section
  abbrev pub write : (S → S) → Exec (Printer S) (Unit {0})
  write f = modify (λ p. record p { out = f p.out })

  -- print_verbatim
  abbrev pub print_verbatim : String → Exec (Printer S) (Unit {0})
  print_verbatim message = write (os.verbatim message)

  -- operator<<
  abbrev pub print : String → Exec (Printer S) (Unit {0})
  print message = write (os.wrapped message)

  -- the header with its lines, in the characters of a depth
  unfoldable pub header : ℕ → String → S → S
  header depth title s =
      let ochar = char_at overline_chars depth in
      let uchar = char_at underline_chars depth in
      let nchars = len title in
      let over = if code ochar == b' ' then s else os.verbatim (line (repeat nchars ochar)) s in
      os.verbatim (line (repeat nchars uchar)) (os.verbatim (line title) over)

  -- start_section; m_section_ is an unsigned short
  unfoldable pub start_section : String → Exec (Printer S) (Unit {0})
  unfolding header
  start_section title = do
    depth ← reads (λ p. ok p.section)
    reads (λ p.
        guard (ltb depth (len underline_chars)) (runtime_error "Not enough underline characters"))
    reads (λ p.
        guard (ltb depth (len overline_chars)) (runtime_error "Not enough overline characters"))
    modify (λ p. record { section = (depth + 1) % 65536; out = header depth title p.out })

  -- finish_section
  unfoldable pub finish_section : Exec (Printer S) (Unit {0})
  finish_section = do
    depth ← reads (λ p. ok p.section)
    reads (λ p. guard (ltb 0 depth) (runtime_error "Not in a section"))
    modify (λ p. record p { section = depth - 1 })
