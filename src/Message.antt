-- ===== src/Message.antt =====
-- include/ObjectBuffer.h `ObjectBuffer`, and include/Message.h `Message`, which keeps its closure in
-- one. The parts: Object: the buffer, with its laws in Object/Lifetime; Body: the closure, with its laws in
-- Elements.
pub mod Object
pub mod Body
mod Tests
