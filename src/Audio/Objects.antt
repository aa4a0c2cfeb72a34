-- ===== src/Audio/Objects.antt =====
-- The objects of opensl_bridge.c, their tables of functions, and how the guest gets at them through
-- compat_dlopen, compat_dlsym and compat_dlclose of compat_bridge.c. The host's functions are parameters.
use nfsmw_arm_linux.Prelude.{
  ℕ, zero, suc, Bool, true, false, ◌||◌, Option, none, some, List, [], ◌∷◌, if◌then◌else◌, ◌==◌,
  Bytes, codes, same_bytes, set,
}
use nfsmw_arm_linux.Audio.{sl_success}

-- The static variables that the guest is given addresses of.
pub data Object : Type 0 where
  engine_object mix_object player_object : Object
  engine_interface play_interface queue_interface config_interface : Object

-- The values of the SL_IID variables, and any other pointer.
pub data Iid : Type 0 where
  iid_engine iid_play iid_queue iid_config iid_record : Iid
  other_iid : ℕ → Iid

pub data Function : Type 0 where
  sl_ok sl_void object_get_state object_get_interface object_destroy : Function
  engine_create_audio_player engine_create_output_mix : Function
  play_set_state play_get_state : Function
  queue_enqueue queue_clear queue_get_state queue_register_callback : Function
  config_set sl_create_engine : Function

-- The last of the four tests that holds.
unfoldable pub interface_of : Object → Iid → Option Object
interface_of engine_object iid_engine = some engine_interface
interface_of player_object iid_play = some play_interface
interface_of player_object iid_queue = some queue_interface
interface_of player_object iid_config = some config_interface
interface_of self iid = none

-- What is written to the result, if it is not NULL, and the code that is returned.
unfoldable pub get_interface : Object → Iid → (wanted : Bool) → Option Object × ℕ
get_interface self iid false = (none, 12)
get_interface self iid true = elim (interface_of self iid) [
  | none ↦ (none, 12)
  | some value ↦ (some value, sl_success)
]

unfoldable pub repeat_ok : ℕ → List Function
repeat_ok zero = []
repeat_ok (suc n) = sl_ok ∷ repeat_ok n

-- The tables as `initialize` fills them.
unfoldable pub object_vtable : List Function
object_vtable =
    set (set (set (set (repeat_ok 10) 2 object_get_state) 3 object_get_interface) 5 sl_void) 6
      object_destroy

unfoldable pub engine_vtable : List Function
engine_vtable = set (set (repeat_ok 20) 2 engine_create_audio_player) 7 engine_create_output_mix

unfoldable pub play_vtable : List Function
play_vtable = set (set (repeat_ok 12) 0 play_set_state) 1 play_get_state

abbrev pub queue_vtable : List Function
queue_vtable = queue_enqueue ∷ queue_clear ∷ queue_get_state ∷ queue_register_callback ∷ []

abbrev pub config_vtable : List Function
config_vtable = config_set ∷ sl_ok ∷ sl_ok ∷ sl_ok ∷ []

unfoldable pub vtable : Object → List Function
vtable engine_object = object_vtable
vtable mix_object = object_vtable
vtable player_object = object_vtable
vtable engine_interface = engine_vtable
vtable play_interface = play_vtable
vtable queue_interface = queue_vtable
vtable config_interface = config_vtable

-- What a name of the bridge stands for.
pub data Export : Type 0 where
  function : Function → Export
  variable : Iid → Export

unfoldable pub nfsmw_opensl_dlsym : Option Bytes → Option Export
nfsmw_opensl_dlsym none = none
nfsmw_opensl_dlsym (some name) =
    if same_bytes name (codes "slCreateEngine")
    then some (function sl_create_engine)
    else if same_bytes name (codes "SL_IID_ENGINE")
    then some (variable iid_engine)
    else if same_bytes name (codes "SL_IID_PLAY")
    then some (variable iid_play)
    else if same_bytes name (codes "SL_IID_ANDROIDSIMPLEBUFFERQUEUE")
    then some (variable iid_queue)
    else if same_bytes name (codes "SL_IID_ANDROIDCONFIGURATION")
    then some (variable iid_config)
    else if same_bytes name (codes "SL_IID_RECORD")
    then some (variable iid_record)
    else none

-- A handle is an address; `token` is that of handle_token.
module _ (token : ℕ) where
  unfoldable pub nfsmw_opensl_is_handle : ℕ → Bool
  nfsmw_opensl_is_handle handle = handle == token

  unfoldable pub compat_dlopen : (dlopen : Option Bytes → ℕ → ℕ) → Option Bytes → (flags : ℕ) → ℕ
  compat_dlopen dlopen none flags = dlopen none flags
  compat_dlopen dlopen (some name) flags =
      if same_bytes name (codes "libOpenSLES.so") || same_bytes name (codes "libOpenSLES.so.1")
      then token
      else dlopen (some name) flags

  -- `address` is where an export of the bridge stands.
  unfoldable pub compat_dlsym :
      (dlsym : ℕ → Option Bytes → ℕ) → (address : Export → ℕ) → (handle : ℕ) → Option Bytes → ℕ
  compat_dlsym dlsym address handle name =
      if nfsmw_opensl_is_handle handle
      then elim (nfsmw_opensl_dlsym name) [ none ↦ 0 | some export ↦ address export ]
      else dlsym handle name

  unfoldable pub compat_dlclose : (dlclose : ℕ → ℕ) → (handle : ℕ) → ℕ
  compat_dlclose dlclose handle = if nfsmw_opensl_is_handle handle then 0 else dlclose handle
