-- ===== src/Errors.antt =====
-- The Python exceptions that the modules tell apart.
use event_pipeline_extension.Prelude.{String}

pub data Exception : Type 0 where
  unicode_decode_error json_decode_error attribute_error timeout_error : Exception
  other_error : String → Exception
