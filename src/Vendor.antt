-- ===== src/Vendor.antt =====
-- The third-party libraries that the program calls, each as a record of the operations that it uses
-- with their documented behaviour. Implementations for the tests are in Samples and Documents.
pub mod Lo
pub mod Cast
pub mod Js
pub mod Json
pub mod Gjson
pub mod Samples
pub mod Documents
