-- ===== src/Primitive.antt =====
-- The events and requests of harness/primitives, as the operations see them. Offsets, sizes and
-- counts of files are natural numbers: the primitives take them from the file system.
use heuristic.Prelude.{ℕ, ℤ, String, List, Option}
use heuristic.Prelude.Bytes.{Bytes}

-- `PrimitiveEventType`, with the constants of each primitive.
pub data EventType : Type 0 where
  failed canceled : EventType
  io_create_completed io_read_output io_read_completed : EventType
  process_started process_output process_stream_failed process_exited : EventType
  compute_completed : EventType
  other : String → EventType

pub data IoCreateKind : Type 0 where
  directory regular_file : IoCreateKind

-- `ViewImageConfig` and `ViewImageResult` of harness/operation/image.go, which the compute primitive
-- carries; the ratio is the text of its float64.
pub record ViewImageConfig : Type 0 where
  pub max_size : ℤ
  pub max_height : ℤ
  pub max_width : ℤ
  pub max_source_pixels : ℤ

pub record ViewImageResult : Type 0 where
  pub content : Bytes
  pub original_width : ℤ
  pub original_height : ℤ
  pub original_mime_type : String
  pub encoded_mime_type : String
  pub scale_ratio : String
  pub error : Bytes

-- `Result`, an `any`: the types that the operations look for, and any other.
pub data EventResult : Type 0 where
  absent : EventResult
  failure : Bytes → EventResult
  read_output : ℕ → Bytes → EventResult
  read_completed : ℕ → EventResult
  created : IoCreateKind → EventResult
  started : ℕ → EventResult
  exited : ℤ → ℕ → EventResult
  -- `ComputeResult`, of an image or of another value.
  computed : Option ViewImageResult → EventResult
  other : String → EventResult

pub record PrimitiveEvent : Type 0 where
  pub type : EventType
  pub source : String
  pub correlation_id : String
  pub result : EventResult

pub record IoReadRequest : Type 0 where
  pub source : String
  pub correlation_id : String
  pub path : String
  pub offset : ℕ
  pub count : ℕ

pub record IoCreateRequest : Type 0 where
  pub source : String
  pub correlation_id : String
  pub kind : IoCreateKind
  pub path : String
  pub mode : ℕ

-- The fields that a shell sets: it gives no environment and no pipes.
pub record ProcessStartRequest : Type 0 where
  pub source : String
  pub correlation_id : String
  pub path : String
  pub arguments : List String
  pub directory : String
  pub stdout_path : String
  pub stderr_path : String

-- `Run` is what the closure of an image captures: the chunks, the configuration and the cause.
pub record ComputeRequest : Type 0 where
  pub source : String
  pub correlation_id : String
  pub chunks : List Bytes
  pub config : ViewImageConfig
  pub cause : Option Bytes

-- `PrimitiveDispatchType`
pub data DispatchType : Type 0 where
  process_start io_create io_read compute : DispatchType
  other : String → DispatchType

pub data DispatchData : Type 0 where
  of_create : IoCreateRequest → DispatchData
  of_read : IoReadRequest → DispatchData
  of_start : ProcessStartRequest → DispatchData
  of_compute : ComputeRequest → DispatchData
