-- ===== src/Func/Data.antt =====
-- struct Fn of api/mem.capnp, and the types of pkg/lang/core/func.go.
use ww.Prelude.{ℕ, Bool, List, Option}
use ww.Vector.Data.{Vector}

-- A text, by its bytes.
abbrev pub Name : Type 0
Name = List ℕ

-- What the builder reads of a value: the text of a symbol, and a vector; `none` is another flag.
pub record Forms (A : Type 0) : Type 0 where
  pub symbol : A → Option Name
  pub as_vector : A → Option (Vector A)

pub data Params : Type 0 where
  nilary : Params
  params : List Name → Params

-- struct Func
pub record Func (A : Type 0) : Type 0 where
  pub params : Params
  pub variadic : Bool
  pub body : List A

-- struct Fn; a lambda has no name.
pub record Fn (A : Type 0) : Type 0 where
  pub macro : Bool
  pub name : Option Name
  pub funcs : List (Func A)

-- callSignature; `params` is nil in the source where it is empty here.
pub record CallSignature (A : Type 0) : Type 0 where
  pub params : List Name
  pub variadic : Bool
  pub body : List A

pub record CallTarget (A : Type 0) : Type 0 where
  pub name : Name
  pub param : List Name
  pub variadic : Bool
  pub body : List A
