-- ===== src/Web/Bytecode.antt =====
-- web/bytecode_compiler.go and web/bytecode_runner.go: the instructions of the routing machine.
pub mod Trie
pub mod Walk
pub mod Encode
pub mod Runner
pub mod Correct
mod Tests
use goji.Prelude.{ℕ, zero, suc, ◌+◌, ◌-◌, Bool, true, false, ◌||◌, List, [], ◌∷◌, if◌then◌else◌}
use goji.Prelude.Bytes.{Bytes}

-- `smMode`: the length in the two low bits, and a field for each flag.
pub record Mode : Type 0 where
  pub length_mask : ℕ
  pub jump_on_match : Bool
  pub route : Bool
  pub set_cursor : Bool
  pub fail : Bool

-- The `int32` index of a state; -1 is the exit that is not resolved yet.
pub data Index : Type 0 where
  at : ℕ → Index
  minus_one : Index

-- `bs [3]byte`
pub record Chunk : Type 0 where
  pub b0 : ℕ
  pub b1 : ℕ
  pub b2 : ℕ

pub record State : Type 0 where
  pub mode : Mode
  pub bs : Chunk
  pub i : Index

abbrev pub StateMachine : Type 0
StateMachine = List State

-- `i += int32(k)`
abbrev pub plus : Index → ℕ → Index
plus (at n) k = at (n + k)
plus minus_one zero = minus_one
plus minus_one (suc k) = at k

-- `mode&(smRoute|smSetCursor) != 0`
abbrev pub holds_value : State → Bool
holds_value s = s.mode.route || s.mode.set_cursor
