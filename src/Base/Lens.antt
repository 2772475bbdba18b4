-- ===== src/Base/Lens.antt =====
-- A member of an object: how a method reads it, and how it writes it.

pub record Lens (S T : Type 0) : Type 0 where
  pub get : S → T
  pub set : T → S → S

module _ {S T : Type 0} where
  abbrev pub over : Lens S T → (T → T) → S → S
  over l f s = l.set (f (l.get s)) s
