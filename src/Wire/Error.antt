-- ===== src/Wire/Error.antt =====
-- How a decoder of the .pb.go files ends. `stuck` is no end of the Go code: it says that a loop of
-- the model ran out of fuel.
use base_protocol_system.Base.{ℕ, String}

pub data DecodeError : Type 0 where
  int_overflow unexpected_eof invalid_length unexpected_end_of_group : DecodeError
  illegal_wire_type : ℕ → DecodeError
  end_group_for_non_group : String → DecodeError
  illegal_tag : String → ℕ → ℕ → DecodeError
  wrong_wire_type : ℕ → String → DecodeError

pub data Decoded (A : Type 0) : Type 0 where
  ok : A → Decoded A
  err : DecodeError → Decoded A
  stuck : Decoded A

infixl 5 ◌>>=◌
abbrev pub ◌>>=◌ : {A B : Type 0} → Decoded A → (A → Decoded B) → Decoded B
ok a >>= f = f a
err e >>= f = err e
stuck >>= f = stuck
