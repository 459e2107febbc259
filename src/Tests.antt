-- ===== src/Tests.antt =====
-- Concrete inputs: one run of each theorem, by the component it is about.
mod Alloc
mod Acl
mod BlockSet
mod Btree
mod Extents
mod Layout
mod Journal
mod Writer
mod Replay
mod FileAttr
mod Files
mod Pool
