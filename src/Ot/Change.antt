-- ===== src/Ot/Change.antt =====
-- local-modules/@bayou/ot-common/BaseChange.js. The types of the fields stand for the checks of the
-- constructor's arguments; that of an author's ID is injected configuration, and is left out.
use bayou.Prelude.{ℕ, Option, none, String}
use bayou.Ot.Delta.{Delta, empty}
use bayou.Ot.Timestamp.{Timestamp}

pub record Change (Op : Type 0) : Type 0 where
  pub rev_num : ℕ
  pub delta : Delta Op
  pub timestamp : Option Timestamp
  pub author_id : Option String

module _ {Op : Type 0} where
  -- The constructor with its default arguments.
  abbrev pub change : ℕ → Delta Op → Change Op
  change rev_num delta = record {
    rev_num = rev_num;
    delta = delta;
    timestamp = none;
    author_id = none;
  }

  -- `FIRST`
  abbrev pub first : Change Op
  first = change 0 empty

  unfoldable pub with_delta : Change Op → Delta Op → Change Op
  with_delta c delta = record c { delta = delta }

  unfoldable pub with_rev_num : Change Op → ℕ → Change Op
  with_rev_num c rev_num = record c { rev_num = rev_num }

  unfoldable pub with_timestamp : Change Op → Option Timestamp → Change Op
  with_timestamp c timestamp = record c { timestamp = timestamp }
