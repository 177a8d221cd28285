-- ===== src/Prelude/Texts.antt =====
-- Concatenation of texts.
use Prim.Native.String.{String}

infixr 66 ◌⊕◌
abbrev pub ◌⊕◌ : String → String → String
s ⊕ t = Prim.Native.String.◌++◌ s t
