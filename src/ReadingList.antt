-- ===== src/ReadingList.antt =====
-- browser-visit-tools/reading_list.py: the selection of the visits that are still to be read, and the
-- two renderings of the list. `local_time` is `datetime.astimezone` with its format, and `none` where
-- the text is no time.
pub mod Strip
pub mod Query
pub mod Markdown
pub mod Html
pub mod Run
