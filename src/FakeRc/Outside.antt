-- ===== src/FakeRc/Outside.antt =====
-- What fake_rc/src/main.rs takes from elsewhere: `f32` arithmetic, `serde_json` and the JPEG encoder.
use robocol.Prelude.{ℕ, List, Option}
use robocol.Wire.{Bytes}
use robocol.Cmd.{ConfigMeta, FrameBegin, FrameChunk}

-- `i32` values, which may be negative.
pub data ℤ : Type 0 where
  pos : ℕ → ℤ
  negsuc : ℕ → ℤ

-- `f32` bits and the operations on them. `literal m d` is the literal of the digits `m`, `d` of them after
-- the point, `seconds` is `Duration::as_secs_f32` and `fixed d x` is `format!("{x:.d}")`.
pub record Floats : Type 0 where
  pub literal : ℕ → ℕ → ℕ
  pub of_int : ℤ → ℕ
  pub of_u64 : ℕ → ℕ
  pub seconds : ℕ → ℕ
  pub neg : ℕ → ℕ
  pub add : ℕ → ℕ → ℕ
  pub sub : ℕ → ℕ → ℕ
  pub mul : ℕ → ℕ → ℕ
  pub rem : ℕ → ℕ → ℕ
  pub rem_euclid : ℕ → ℕ → ℕ
  pub floor : ℕ → ℕ
  pub sin : ℕ → ℕ
  pub cos : ℕ → ℕ
  pub to_degrees : ℕ → ℕ
  pub to_i32 : ℕ → ℤ
  pub to_u8 : ℕ → ℕ
  pub fixed : ℕ → ℕ → Bytes

-- `from_str` and `to_string` of `serde_json`, at the types they are used at (no error of a `to_string`
-- can arise for them), and `render_frame` with the encoder.
pub record Outside : Type 0 where
  pub floats : Floats
  pub config_meta : Bytes → Option ConfigMeta
  pub config_meta_string : ConfigMeta → Bytes
  pub config_metas_string : List ConfigMeta → Bytes
  pub frame_begin_string : FrameBegin → Bytes
  pub frame_chunk_string : FrameChunk → Bytes
  pub render_frame : Bytes → ℕ → Bytes
