-- ===== src/Amw/Qos.antt =====
-- crates/audesys-amw-inproc/src/qos.rs, `InprocQoS`, and the types of crates/audesys-hal-core/src/qos.rs.
-- A method that changes the shared state takes it and returns it; each runs without interruption,
-- but for `set_lock_level`, whose read of the level and whose check and store are two functions. Strings
-- are lists of bytes, and an instant is a number.
pub mod Locking
pub mod Queue
pub mod Words
use audesys.Base.{
  ℕ, ◌+◌, Bool, true, false, ◌&&◌, ◌||◌, List, [], ◌∷◌, ◌++◌, map, Option, none, some, ltb, leb,
  ◌==◌, if◌then◌else◌, map_get, map_insert,
}

-- `unlocked` is the source's `None`.
pub data LockLevel : Type 0 where
  unlocked load config params run all : LockLevel

-- `level as u8`, by which the derived order compares.
unfoldable pub to_u8 : LockLevel → ℕ
to_u8 LockLevel.unlocked = 0
to_u8 LockLevel.load = 1
to_u8 LockLevel.config = 2
to_u8 LockLevel.params = 3
to_u8 LockLevel.run = 4
to_u8 LockLevel.all = 5

pub data LivelinessStatus : Type 0 where
  alive missing unknown : LivelinessStatus

pub record ConfigCommand : Type 0 where
  pub id : ℕ
  pub method : List ℕ
  pub params : List ℕ
  pub queued_at : ℕ

-- The reason of a rejection, as the values that its message prints.
pub data Reason : Type 0 where
  decrease : LockLevel → LockLevel → Reason
  prohibited : LockLevel → List ℕ → LockLevel → Reason

pub data ConfigStatus : Type 0 where
  queued applied : ConfigStatus
  rejected : Reason → ConfigStatus
  failed : List ℕ → ConfigStatus

pub record InprocQos : Type 0 where
  pub lock_level : ℕ
  pub config_queue : List ConfigCommand
  pub liveliness : List (List ℕ × LivelinessStatus)
  pub security_domains : List (List ℕ × List ℕ)

abbrev pub new_qos : InprocQos
new_qos = record { lock_level = 0; config_queue = []; liveliness = []; security_domains = [] }

-- `str::to_lowercase` on the bytes of the Latin capitals. No other character has a lower case with
-- a letter of the words that are looked for below.
abbrev lower : ℕ → ℕ
lower b = if leb 65 b && leb b 90 then b + 32 else b

unfoldable pub starts_with : List ℕ → List ℕ → Bool
starts_with [] text = true
starts_with (a ∷ word) [] = false
starts_with (a ∷ word) (b ∷ text) = (a == b) && starts_with word text

-- `text.contains(word)`, the word last.
unfoldable pub has : List ℕ → List ℕ → Bool
has [] word = starts_with word []
has (b ∷ text) word = starts_with word (b ∷ text) || has text word

-- "load", "unload", "component" and "param".
abbrev pub load_word : List ℕ
load_word = 108 ∷ 111 ∷ 97 ∷ 100 ∷ []

abbrev pub unload_word : List ℕ
unload_word = 117 ∷ 110 ∷ load_word

abbrev pub component_word : List ℕ
component_word = 99 ∷ 111 ∷ 109 ∷ 112 ∷ 111 ∷ 110 ∷ 101 ∷ 110 ∷ 116 ∷ []

abbrev pub param_word : List ℕ
param_word = 112 ∷ 97 ∷ 114 ∷ 97 ∷ 109 ∷ []

abbrev pub to_lowercase : List ℕ → List ℕ
to_lowercase text = map lower text

unfoldable pub required_lock_level : List ℕ → LockLevel
required_lock_level method =
    let low = to_lowercase method in
    if has low load_word || has low unload_word || has low component_word
    then LockLevel.load
    else if has low param_word
    then LockLevel.params
    else LockLevel.config

unfoldable pub can_queue : LockLevel → LockLevel → Bool
can_queue LockLevel.unlocked required = true
can_queue LockLevel.load required = true
can_queue LockLevel.config required = leb (to_u8 LockLevel.config) (to_u8 required)
can_queue LockLevel.params required = leb (to_u8 LockLevel.params) (to_u8 required)
can_queue LockLevel.run required = false
can_queue LockLevel.all required = false

unfoldable pub level_of : ℕ → LockLevel
level_of raw =
    if raw == 0
    then LockLevel.unlocked
    else if raw == 1
    then LockLevel.load
    else if raw == 2
    then LockLevel.config
    else if raw == 3
    then LockLevel.params
    else if raw == 4
    then LockLevel.run
    else LockLevel.all

abbrev pub load_level : InprocQos → LockLevel
load_level q = level_of q.lock_level

-- The rest of `set_lock_level` after it has read `current`.
unfoldable pub store_level : LockLevel → LockLevel → InprocQos → InprocQos × ConfigStatus
store_level current level q =
    if ltb (to_u8 level) (to_u8 current)
    then (q, ConfigStatus.rejected (Reason.decrease current level))
    else (record q { lock_level = to_u8 level }, ConfigStatus.applied)

unfoldable pub set_lock_level : LockLevel → InprocQos → InprocQos × ConfigStatus
set_lock_level level q = store_level (load_level q) level q

unfoldable pub queue_config : ConfigCommand → InprocQos → InprocQos × ConfigStatus
queue_config cmd q =
    let current = load_level q in
    let required = required_lock_level cmd.method in
    if can_queue current required
    then (record q { config_queue = q.config_queue ++ cmd ∷ [] }, ConfigStatus.queued)
    else (q, ConfigStatus.rejected (Reason.prohibited current cmd.method required))

unfoldable pub apply_queued : InprocQos → InprocQos × List ConfigStatus
apply_queued q = (record q { config_queue = [] }, map (λ _. ConfigStatus.applied) q.config_queue)

unfoldable pub register_entity : List ℕ → InprocQos → InprocQos
register_entity entity_id q = record q {
  liveliness = map_insert entity_id LivelinessStatus.alive q.liveliness;
}

abbrev or_unknown : Option LivelinessStatus → LivelinessStatus
or_unknown (some s) = s
or_unknown none = LivelinessStatus.unknown

unfoldable pub check_liveliness : List ℕ → InprocQos → LivelinessStatus
check_liveliness entity_id q = or_unknown (map_get entity_id q.liveliness)

unfoldable pub tag_security_domain : List ℕ → List ℕ → InprocQos → InprocQos
tag_security_domain name domain q = record q {
  security_domains = map_insert name domain q.security_domains;
}

unfoldable pub get_security_domain : List ℕ → InprocQos → Option (List ℕ)
get_security_domain name q = map_get name q.security_domains
