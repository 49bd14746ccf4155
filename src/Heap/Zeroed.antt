-- ===== src/Heap/Zeroed.antt =====
-- kzalloc of kernel/heap.c.
use ore_os.Heap.{Heap}
