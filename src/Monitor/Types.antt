-- ===== src/Monitor/Types.antt =====
-- The types that the parts of the monitor share (monitor/pr-monitor/src/types.ts, model.ts and
-- collectors.ts). Measured values are of a type `R`, a parameter: JavaScript's floating numbers.
use Prim.Native.Nat.{bit_and}
use robotics_pacific_rim.Base.{ℕ, Bool, not, Option, List, ◌==◌, Text}

-- TypeBits of types.ts: an endpoint's type is a set of bits.
abbrev pub publisher : ℕ
publisher = 1

abbrev pub subscriber : ℕ
subscriber = 2

abbrev pub server : ℕ
server = 4

abbrev pub client : ℕ
client = 8

abbrev pub setter : ℕ
setter = 16

abbrev pub getter : ℕ
getter = 32

-- `(type & bits) !== 0`.
abbrev pub has_bits : ℕ → ℕ → Bool
has_bits type bits = not (bit_and type bits == 0)

pub data SchemaType : Type 0 where
  proto flatbuffers blob : SchemaType

pub record ProcessInfo (R : Type 0) : Type 0 where
  pub type : ℕ
  pub host : Text
  pub ip : Text
  pub name : Text
  pub pid : ℕ
  pub profiler : Option R

pub record EndpointInfo (R : Type 0) : Type 0 where
  pub type : ℕ
  pub url : Text
  pub runtime_url : Option Text
  pub ser_type : Text
  pub schema_type : SchemaType
  pub process_list : List (ProcessInfo R)
  pub sources : List Text
  pub route_names : List Text

-- A whole number: `negsuc n` is `-(n + 1)`.
pub data ℤ : Type 0 where
  pos negsuc : ℕ → ℤ

-- `Math.max(0, i)`.
abbrev pub to_nat : ℤ → ℕ
to_nat (pos n) = n
to_nat (negsuc n) = 0

-- A number of JavaScript that is whole, infinite or NaN.
pub data Number : Type 0 where
  whole : ℤ → Number
  infinity minus_infinity not_a_number : Number

pub record EndpointStats (R : Type 0) : Type 0 where
  pub freq : Option R
  pub rate : Option R
  pub loss : Option R
  pub latency : Option R
  pub stable : Bool
  pub active : Bool
  pub ticks : ℕ
  pub seq : Number
  pub last_seen_at : Option ℕ
  pub source : Text
  pub status : Text

pub record EndpointHistory (R : Type 0) : Type 0 where
  pub freq : List R
  pub rate : List R
  pub loss : List R
  pub latency : List R

pub record DetailSample (R : Type 0) : Type 0 where
  pub time : Text
  pub seq : Number
  pub size : Option R
  pub latency : Option R
  pub preview : Text

-- A sample of collectors.ts; what is optional there is an `Option` here.
pub record CollectorSample (R : Type 0) : Type 0 where
  pub url : Text
  pub source : Text
  pub timestamp : ℕ
  pub freq : Option R
  pub rate : Option R
  pub loss : Option R
  pub latency : Option R
  pub count_delta : Option R
  pub size : Option R
  pub active : Option Bool
  pub status : Option Text
  pub preview : Option Text
  pub process_list : Option (List (ProcessInfo R))

pub record CollectorStatus : Type 0 where
  pub name : Text
  pub is_ok : Bool
  pub message : Text
  pub updated_at : ℕ

pub record CollectorSnapshot (R : Type 0) : Type 0 where
  pub samples : List (CollectorSample R)
  pub status : CollectorStatus

pub record MonitorOptions : Type 0 where
  pub urls : List Text
  pub filter : Text
  pub black_mode : Bool
  pub native_mode : Bool
  pub count_mode : Bool
  pub detail_mode : Bool
  pub observe_all_mode : Bool
  pub profiler_mode : Bool
  pub ser_mode : Bool
  pub active_mode : Bool
  pub pubsub_mode : Bool
  pub process_mode : Bool
  pub chart_mode : Bool
  pub preset_mode : Bool
  pub plain_mode : Bool
  pub dot_mode : Bool
  pub blob_mode : Bool
  pub rows : ℤ
  pub columns : ℤ
  pub chart_width : ℤ
  pub process_width : ℤ
  pub proto_args : Text
  pub proto_dir : Text
  pub fbs_dir : Text
  pub loc_mode : Bool
  pub project_root : Text
  pub prometheus_url : Text
  -- `none` is NaN, which the environment can give.
  pub ros2_sample_seconds : Option ℤ
  pub list_routes : Bool
  pub list_processes : Bool

-- What the code takes from its host: floating numbers, the clock's texts and the locale's order.
-- `round x` is `Math.round(x)`.
pub record Host : Type 1 where
  pub Real : Type 0
  pub zero_real : Real
  pub add_real : Real → Real → Real
  pub is_positive : Real → Bool
  pub round : Real → Number
  pub time_string : ℕ → Text
  pub locale_le : Text → Text → Bool
