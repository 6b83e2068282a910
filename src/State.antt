-- ===== src/State.antt =====
-- The accounts of the program: programs/cols/src/state, a module for each file there. A method on
-- `&mut self` takes the account and returns the new one; `default` is the derived `Default`, and
-- `size` the constant `SIZE`. Public keys and byte arrays are lists of bytes, words are numbers.
pub mod Config
pub mod Pet
pub mod Launch
pub mod King
pub mod Distribution
pub mod HolderClaim
pub mod Layout
