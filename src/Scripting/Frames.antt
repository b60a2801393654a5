-- ===== src/Scripting/Frames.antt =====
-- scripting/frames.py: the stack of lexical scopes. The list begins with the innermost frame.
use bqemulator.Prelude.{
  Bool, false, ◌||◌, Option, none, some, List, [], ◌∷◌, if◌then◌else◌, Text, text_eq,
}
use bqemulator.Dict.{Dict, get, has, put}
use bqemulator.Scripting.Syntax.{Value, DomainError, no_frame, already_declared, unknown_variable}

pub data FrameKind : Type 0 where
  root block loop : FrameKind

pub record Variable (O : Type 0) : Type 0 where
  pub type_name : Text
  pub value : Value O

pub record Frame (O : Type 0) : Type 0 where
  pub kind : FrameKind
  pub variables : Dict Text (Variable O)

-- The frames after a call, or the error that it raises.
pub data Framed (O : Type 0) : Type 0 where
  framed : List (Frame O) → Framed O
  refused : DomainError → Framed O

module _ {O : Type 0} where
  -- FrameStack.push
  unfoldable pub push : FrameKind → List (Frame O) → List (Frame O)
  push k fs = record { kind = k; variables = [] } ∷ fs

  -- FrameStack.pop, where there is a frame.
  abbrev pub pop : List (Frame O) → List (Frame O)
  pop [] = []
  pop (f ∷ fs) = fs

  -- FrameStack.declare
  unfoldable pub declare : Text → Text → Value O → List (Frame O) → Framed O
  declare n t v [] = refused no_frame
  declare n t v (f ∷ fs) =
      if has f.variables n
      then refused (already_declared n)
      else framed
          (record f { variables = put f.variables n (record { type_name = t; value = v }) } ∷ fs)

  unfoldable pub assign_found : Option (Variable O) → Text → Value O → Frame O → Frame O
  assign_found none n v f = f
  assign_found (some x) n v f = record f { variables = put f.variables n (record x { value = v }) }

  abbrev pub under : Frame O → Framed O → Framed O
  under f (framed fs) = framed (f ∷ fs)
  under f (refused e) = refused e

  -- FrameStack.set
  unfoldable pub set : Text → Value O → List (Frame O) → Framed O
  unfolding assign_found
  set n v [] = refused (unknown_variable n)
  set n v (f ∷ fs) =
      let rest = under f (set n v fs) in
      if has f.variables n then framed (assign_found (get f.variables n) n v f ∷ fs) else rest

  -- FrameStack.lookup: `none` is the InvalidQueryError.
  unfoldable pub lookup : Text → List (Frame O) → Option (Value O)
  lookup n [] = none
  lookup n (f ∷ fs) =
      let rest = lookup n fs in elim (get f.variables n) [ none ↦ rest | some x ↦ some x.value ]

  -- FrameStack.has
  unfoldable pub is_visible : Text → List (Frame O) → Bool
  is_visible n [] = false
  is_visible n (f ∷ fs) = has f.variables n || is_visible n fs

  unfoldable pub put_all : Dict Text (Variable O) → Dict Text (Variable O) → Dict Text (Variable O)
  put_all d [] = d
  put_all d ((n, x) ∷ vars) = put_all (put d n x) vars

  -- FrameStack.all_visible: the outer frames first.
  unfoldable pub all_visible : List (Frame O) → Dict Text (Variable O)
  unfolding put_all
  all_visible [] = []
  all_visible (f ∷ fs) = put_all (all_visible fs) f.variables
