-- ===== src/Buffers/Exclusive.antt =====
-- buffers.py, `take`: memory that someone still holds is not lent.
use Prim.Native.String.{String}
use insitubatch.Buffers.Tracked.{Tracked}
