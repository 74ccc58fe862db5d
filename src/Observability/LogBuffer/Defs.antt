-- ===== src/Observability/LogBuffer/Defs.antt =====
-- `RingBufferLogHandler`. The deque is a list that keeps its last `capacity` entries. The handler's
-- lock makes `emit` and the copy in `snapshot` one step each.
use bacnet_sim_gateway.Common.{
  ℕ, zero, suc, ◌-◌, nat_eq, String, ℤ, Bool, true, not, ◌&&◌, Option, none, some, List, [], ◌∷◌,
  ◌++◌, ◌==◌, length, drop, list_eq, if◌then◌else◌,
}
use bacnet_sim_gateway.Common.Text.{codes, upper, is_blank}

pub record LogEntry (F : Type 0) : Type 0 where
  pub ts : F
  pub level : String
  pub logger : String
  pub message : String

-- a `logging.LogRecord`; `none` is a `getMessage` that raises
pub record LogRecord (F : Type 0) : Type 0 where
  pub created : F
  pub levelname : String
  pub name : String
  pub get_message : Option String
  pub raw_message : String

pub record RingBuffer (F : Type 0) : Type 0 where
  pub capacity : ℕ
  pub records : List (LogEntry F)

-- the last `n` items
unfoldable pub last {ℓ} : {A : Type ℓ} → ℕ → List A → List A
last n xs = drop (length xs - n) xs

module _ {F : Type 0} where
  unfoldable pub init_buffer : ℕ → RingBuffer F
  init_buffer capacity = record { capacity = capacity; records = [] }

  unfoldable pub entry_of : LogRecord F → LogEntry F
  entry_of r = record {
    ts = r.created;
    level = r.levelname;
    logger = r.name;
    message = elim r.get_message [ none ↦ r.raw_message | some m ↦ m ];
  }

  -- `append` of a deque with `maxlen`
  unfoldable pub emit : LogRecord F → RingBuffer F → RingBuffer F
  emit r b = record b { records = last b.capacity (b.records ++ entry_of r ∷ []) }

  unfoldable pub emit_all : List (LogRecord F) → RingBuffer F → RingBuffer F
  emit_all [] b = b
  emit_all (r ∷ rs) b = emit_all rs (emit r b)

  -- `if level and e.level != level.upper()`
  unfoldable pub has_level : Option String → LogEntry F → Bool
  has_level none e = true
  has_level (some level) e = if is_blank level then true else codes e.level == upper level

  -- `entries[-limit:]`
  unfoldable pub slice_from_end : ℤ → List (LogEntry F) → List (LogEntry F)
  slice_from_end (ℤ.pos zero) entries = entries
  slice_from_end (ℤ.pos (suc n)) entries = last (suc n) entries
  slice_from_end (ℤ.negsuc n) entries = drop (suc n) entries

  module _ (le : F → F → Bool) where
    unfoldable pub is_since : Option F → LogEntry F → Bool
    is_since none e = true
    is_since (some since) e = not (le e.ts since)

    unfoldable pub select : Option String → Option F → List (LogEntry F) → List (LogEntry F)
    select level since [] = []
    select level since (e ∷ items) =
        let rest = select level since items in
        if has_level level e && is_since since e then e ∷ rest else rest

    unfoldable pub snapshot : Option String → Option F → Option ℤ → RingBuffer F → List (LogEntry F)
    snapshot level since limit b = elim limit [
      | none ↦ select level since b.records
      | some n ↦ slice_from_end n (select level since b.records)
    ]
