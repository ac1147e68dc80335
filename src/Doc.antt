-- ===== src/Doc.antt =====
-- local-modules/@bayou/doc-common: the properties and the carets of a document.
pub mod Property
pub mod Caret
