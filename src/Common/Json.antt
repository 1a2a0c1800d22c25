-- ===== src/Common/Json.antt =====
-- What encoding/json decodes into `any`. A float64 is the integer that it stands for, or a
-- `fraction`: whether it is negative, and the magnitude without the digits behind the point.
use Prim.Native.Nat.{ℕ}
use mathlib.Core.Bool.{Bool}
use cpa_github_copilot.Common.Int.{ℤ}
use cpa_github_copilot.Common.Text.{Bytes}

mutual
  pub data Json : Type 0 where
    null : Json
    boolean : Bool → Json
    number : ℤ → Json
    fraction : Bool → ℕ → Json
    string : Bytes → Json
    array : Items → Json
    object : Fields → Json

  pub data Items : Type 0 where
    nil : Items
    cons : Json → Items → Items

  pub data Fields : Type 0 where
    end : Fields
    field : Bytes → Json → Fields → Fields
