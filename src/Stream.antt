-- ===== src/Stream.antt =====
-- ngx_rpc_module/ngx_rpc_buffer.cpp: the streams with which protobuf reads and writes buffer chains.
pub mod Reader
pub mod RoundTrip
pub mod Writer
use nginx_rpc.Common.{ℕ, ◌+◌, ◌-◌, ◌%◌, ◌^◌}
use nginx_rpc.Heap.{Place}

-- What a call of Next hands out: `size` bytes of a block, from an offset on.
pub record Chunk : Type 0 where
  pub block : Place
  pub offset : ℕ
  pub size : ℕ

-- `int size = to - from`: the low 32 bits of the difference of two pointers into one block.
abbrev pub distance : (from to : ℕ) → ℕ
distance from to = (to + 2 ^ 64 - from) % 2 ^ 32
