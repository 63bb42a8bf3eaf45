-- ===== src/Ipc/Kind.antt =====
-- include/emilua/actor.hpp: `ipc_actor_message::kind`.
use emilua.Common.{ℕ}

abbrev pub boolean_true : ℕ
boolean_true = 1

abbrev pub boolean_false : ℕ
boolean_false = 2

abbrev pub string : ℕ
string = 3

abbrev pub file_descriptor : ℕ
file_descriptor = 4

abbrev pub actor_address : ℕ
actor_address = 5

abbrev pub nil : ℕ
nil = 6
