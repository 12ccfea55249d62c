-- ===== src/Source/Planned.antt =====
-- source.py and plan.py together: the chunks that a block waits for are among the planned reads.
use Prim.Native.String.{String}
use insitubatch.Base.{List}
