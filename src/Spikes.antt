-- ===== src/Spikes.antt =====
-- spikes/: the prototypes beside the library.
pub mod HeapParser
