-- ===== src/Ipc/Values.antt =====
-- src/ipc_actor.cpp: what the two readers of a message in `ipc_actor_inbox_op::on_wait` share, the
-- values that they produce and the tables that they fill.
use emilua.Common.{ℕ, ◌+◌, Bool, true, false, List, [], ◌∷◌, ◌++◌, if◌then◌else◌, ◌==◌}
use emilua.Ipc.{StringView, tag}
use emilua.Ipc.Kind

-- A value that is no table. A descriptor is owned by the value.
pub data Scalar : Type 0 where
  boolean : Bool → Scalar
  number : ℕ → Scalar
  string : List ℕ → Scalar
  file_descriptor : ℕ → Scalar
  actor_address : ℕ → Scalar

abbrev pub Table : Type 0
Table = List (List ℕ × Scalar)

pub data Value : Type 0 where
  flat : Scalar → Value
  dict : Table → Value

abbrev pub descriptors : Scalar → List ℕ
descriptors (file_descriptor fd) = fd ∷ []
descriptors (actor_address fd) = fd ∷ []
descriptors _ = []

-- The table under construction, the read position in `strbuf`, the received descriptors that no
-- value owns yet, and those whose owner was thrown away.
pub record Reading : Type 0 where
  pub entries : Table
  pub strit : ℕ
  pub fds : List ℕ
  pub dropped : List ℕ

-- One step of a reader.
pub data Outcome : Type 0 where
  ok : Reading → Outcome
  bad_message : Reading → Outcome

-- What a reader does with a message: the value it hands over and the descriptors that it leaves to
-- be closed, or the refusal, after which all of them are closed.
pub data Received : Type 0 where
  received : (value : Value) (closed : List ℕ) → Received
  refused : (closed : List ℕ) → Received

abbrev pub owned : Table → List ℕ
owned [] = []
owned ((key, s) ∷ rest) = descriptors s ++ owned rest

abbrev pub same : List ℕ → List ℕ → Bool
same [] [] = true
same [] (_ ∷ _) = false
same (_ ∷ _) [] = false
same (x ∷ xs) (y ∷ ys) = if x == y then same xs ys else false

abbrev pub has_key : List ℕ → Table → Bool
has_key key [] = false
has_key key ((k, s) ∷ rest) = if same key k then true else has_key key rest

-- `dict.emplace`: a key that is there keeps its value, and the new one is destroyed.
unfoldable pub emplace : List ℕ → Scalar → Reading → Reading
emplace key s r =
    if has_key key r.entries
    then record {
      entries = r.entries;
      strit = r.strit;
      fds = r.fds;
      dropped = r.dropped ++ descriptors s;
    }
    else record {
      entries = r.entries ++ (key, s) ∷ [];
      strit = r.strit;
      fds = r.fds;
      dropped = r.dropped;
    }

abbrev pub replace : List ℕ → Scalar → Table → Table
replace key s [] = []
replace key s ((k, t) ∷ rest) = if same key k then (k, s) ∷ rest else (k, t) ∷ replace key s rest

-- The descriptors of the value that `replace` overwrites.
abbrev pub replaced : List ℕ → Table → List ℕ
replaced key [] = []
replaced key ((k, t) ∷ rest) = if same key k then descriptors t else replaced key rest

-- `lua_rawset`: a key that is there takes the new value, and the old one is left to the collector.
unfoldable pub rawset : List ℕ → Scalar → Reading → Reading
rawset key s r =
    if has_key key r.entries
    then record {
      entries = replace key s r.entries;
      strit = r.strit;
      fds = r.fds;
      dropped = r.dropped ++ replaced key r.entries;
    }
    else record {
      entries = r.entries ++ (key, s) ∷ [];
      strit = r.strit;
      fds = r.fds;
      dropped = r.dropped;
    }

abbrev pub seek : ℕ → Reading → Reading
seek strit r = record { entries = r.entries; strit = strit; fds = r.fds; dropped = r.dropped }

abbrev pub take_fds : List ℕ → Reading → Reading
take_fds fds r = record { entries = r.entries; strit = r.strit; fds = fds; dropped = r.dropped }

-- Behind a string.
abbrev pub behind : StringView → ℕ
behind v = v.start + v.size

abbrev pub nil_word : ℕ
nil_word = tag Kind.nil

abbrev pub begin : List ℕ → Reading
begin fds = record { entries = []; strit = 0; fds = fds; dropped = [] }
