-- ===== src/Decision/Inspector.antt =====
-- apps/decision-engine/decision_engine/local_code.py: the inspector of local code, from the files that it has
-- read to the hits that it reports. Line numbers count from 1; a symbol stands in a file with content.
pub mod Words
pub mod Lines
pub mod Sort
pub mod Resolve
pub mod Reasons
pub mod Hits
pub mod Context
pub mod Build
pub mod Dicts
pub mod Inspect
pub mod Excerpt
