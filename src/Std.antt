-- ===== src/Std.antt =====
-- What the service uses of the C++ standard library: numbers as text, ordered sets of strings, and
-- regular expressions, sorting, and streams in text mode.
pub mod Number
pub mod OrderedSet
pub mod Regex
pub mod Sort
pub mod TextMode
