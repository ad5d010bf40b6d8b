-- ===== src/Machine.antt =====
-- The machine that the bridge runs on: heap blocks, loader handles and the calls made into the Core
-- library, and the effects of coakka_runtime_bridge.c over them. What the bridge does not
-- implement (the allocator's choice to fail, the platform's loader, the Core library) is the
-- parameter `Host`.
pub mod Heap
pub mod Effects
pub mod Reasoning
