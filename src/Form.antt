-- ===== src/Form.antt =====
-- jquery.form.js: the values of form fields, their serialisation, and the submission of a form.
mod Fields
mod Successful
mod Values
mod Edits
mod Cleared
mod Submit
mod Click
mod Clicked
mod Requests
mod Upload
mod Reports
mod Tests
