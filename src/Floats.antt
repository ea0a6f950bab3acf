-- ===== src/Floats.antt =====
-- Python's floats, as the scripts use them: the operations are parameters of the models.
use package.true.Prelude.{Bool, leb, ltb, ℕ, ◌*◌, ◌+◌, ◌-◌, ◌/◌}

pub record Floats : Type 1 where
  pub Float : Type 0
  -- the float of a whole number, and of a quotient of whole numbers such as the literal 0.75
  pub whole : ℕ → Float
  pub ratio : ℕ → ℕ → Float
  pub plus : Float → Float → Float
  pub times : Float → Float → Float
  pub minus : Float → Float → Float
  pub over : Float → Float → Float
  pub log : Float → Float
  pub power : Float → Float → Float
  pub less : Float → Float → Bool
  pub at_most : Float → Float → Bool

-- Floats that are whole numbers, to run the models with.
abbrev pub whole_floats : Floats
whole_floats = record {
  Float = ℕ;
  whole = λ n. n;
  ratio = λ a b. a / b;
  plus = λ a b. a + b;
  times = λ a b. a * b;
  minus = λ a b. a - b;
  over = λ a b. a / b;
  log = λ a. a;
  power = λ a b. a;
  less = ltb;
  at_most = leb;
}
