-- ===== src/Files.antt =====
-- io/fileutils.go: names of files, listings, the search in parent directories, moved files and old
-- temporary directories. What the operating system answers is a parameter of each part.
pub mod Names
pub mod Listing
pub mod Parents
pub mod Moving
pub mod TempDirs
pub mod Lines
pub mod RandFile
pub mod Removing
pub mod Tree
pub mod Copying
pub mod Walk
pub mod Transfer
