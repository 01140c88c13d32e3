-- ===== src/Types/Codec.antt =====
-- internal/types/codec.go: records as bytes, by encoding/json.
use dist_log.Prelude.{◌≡◌, List, Option, some}
use dist_log.Bytes.{Byte}
use dist_log.Types.{LogRecord}

-- `json.Marshal` and `json.Unmarshal` at the record type; `none` is an error.
pub record Json : Type 0 where
  pub marshal : LogRecord → Option (List Byte)
  pub unmarshal : List Byte → Option LogRecord

unfoldable pub marshal : Json → LogRecord → Option (List Byte)
marshal J r = J.marshal r

unfoldable pub unmarshal : Json → List Byte → Option LogRecord
unmarshal J b = J.unmarshal b

-- The package encodes the record, and its decoder gives the record back up to the timestamp. A string
-- that is not UTF-8 is the documented exception.
pub record ReadsBack (J : Json) (r : LogRecord) : Type 0 where
  pub bytes : List Byte
  pub encoded : J.marshal r ≡ some bytes
  pub read : LogRecord
  pub decoded : J.unmarshal bytes ≡ some read
  pub same : record read { timestamp = r.timestamp } ≡ r
